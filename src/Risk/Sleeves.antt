-- ===== src/Risk/Sleeves.antt =====
-- Sleeves as keys of a dictionary.
use crypto_dual_sleeve_tradi.Base.{◌≡◌, refl, Bool, true, false}
use crypto_dual_sleeve_tradi.Base.Enum.{is}
use crypto_dual_sleeve_tradi.Base.Key.{Key, string_key, pair_key}
use crypto_dual_sleeve_tradi.Core.Enums.{
  sleeve_a, sleeve_b, sleeve_a, SleeveId, trading_mode_enum, sleeve_id_enum, order_side_enum,
  position_side_enum, order_type_enum, order_action_enum, order_status_enum, safe_mode_state_enum,
  circuit_action_enum,
}

abbrev pub sleeve_lt : SleeveId → SleeveId → Bool
sleeve_lt sleeve_a sleeve_b = true
sleeve_lt _ _ = false

pub sleeve_lt_asymm : (s t : SleeveId) → sleeve_lt s t ≡ true → sleeve_lt t s ≡ false
sleeve_lt_asymm sleeve_a sleeve_a h = refl
sleeve_lt_asymm sleeve_a sleeve_b h = refl
sleeve_lt_asymm sleeve_b sleeve_a h = cc
sleeve_lt_asymm sleeve_b sleeve_b h = refl

instance abbrev pub sleeve_key : Key SleeveId
sleeve_key = record { eq = is; lt = sleeve_lt; same = sleeve_id_enum.same; asymm = sleeve_lt_asymm }
