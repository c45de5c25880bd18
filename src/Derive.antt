-- ===== src/Derive.antt =====
-- The derivation of the operating point (puls-engine/core/derive.cpp).
mod Defs
pub mod Width
pub mod Bracket
unfoldable pub use puls_rfc.Derive.Defs.{
  bisect, midpoint, extend, decode_batch, decode_gap, ndec_ffn_eq_gpua, balance_residual, same_sign,
  is_negative, like_at_lo, ctx_bracket, derive_operating_point,
}
