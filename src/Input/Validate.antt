-- ===== src/Input/Validate.antt =====
-- `validate` and `position` of crates/jackstay/src/input/session.rs: which events a session takes.
use jackstay.Base.{
  ℕ, ◌/◌, Bool, true, false, not, ◌&&◌, ◌||◌, Option, none, some, List, [], ◌∷◌, ◌==◌, ltb, leb,
  length, if◌then◌else◌,
}
use jackstay.Base.Float.{is_finite, ltb_F64, geb_F64, zero_F64, nonzero_F64}
use jackstay.Base.Result.{Result, ok, ◌>>◌, reject_if}
use jackstay.Input.Model.{
  Text, Mode, physical, source_text, cooperative, Action, down, up, repeat, Key, physical_key,
  logical_key, ScrollPhase, may_begin, stationary, no_phase, began, changed, ended, cancelled,
  Position, Event, key, text, motion, button, scroll, key_name, cap_physical, cap_logical, cap_text,
  cap_pointer, cap_scroll, has_bit, Config, Error, invalid, unsupported, stale,
}

-- `name.contains('\0')`.
unfoldable pub contains_nul : Text → Bool
contains_nul [] = false
contains_nul (c ∷ cs) = c == 0 || contains_nul cs

abbrev pub is_ascii_alphanumeric : ℕ → Bool
is_ascii_alphanumeric c =
    (leb b'0' c && leb c b'9') || ((leb b'A' c && leb c b'Z') || (leb b'a' c && leb c b'z'))

unfoldable pub all_alphanumeric : Text → Bool
all_alphanumeric [] = true
all_alphanumeric (c ∷ cs) = is_ascii_alphanumeric c && all_alphanumeric cs

abbrev pub is_empty {ℓ} : {A : Type ℓ} → List A → Bool
is_empty [] = true
is_empty (x ∷ xs) = false

abbrev pub is_down : Action → Bool
is_down down = true
is_down up = false
is_down repeat = false

abbrev pub is_repeat : Action → Bool
is_repeat repeat = true
is_repeat down = false
is_repeat up = false

abbrev pub is_physical_mode : Mode → Bool
is_physical_mode physical = true
is_physical_mode source_text = false
is_physical_mode cooperative = false

abbrev pub is_physical_key : Key → Bool
is_physical_key (physical_key name) = true
is_physical_key (logical_key name) = false

abbrev pub key_capability : Key → ℕ
key_capability (physical_key name) = cap_physical
key_capability (logical_key name) = cap_logical

abbrev pub is_stationary : Option ScrollPhase → Bool
is_stationary none = false
is_stationary (some stationary) = true
is_stationary (some no_phase) = false
is_stationary (some may_begin) = false
is_stationary (some began) = false
is_stationary (some changed) = false
is_stationary (some ended) = false
is_stationary (some cancelled) = false

unfoldable pub position : Config → Position → Result Error (Unit {0})
position c p = do
  reject_if (not (p.revision == c.geometry.revision)) stale
  reject_if
      (not (is_finite p.x)
        || (not (is_finite p.y)
            || (ltb_F64 p.x zero_F64
                || (ltb_F64 p.y zero_F64
                    || (geb_F64 p.x c.geometry.width || geb_F64 p.y c.geometry.height)))))
      invalid

unfoldable pub require : Config → ℕ → Result Error (Unit {0})
require c capability = reject_if (not (has_bit c.capabilities capability)) unsupported

-- What only a press has to satisfy.
unfoldable pub validate_press : Config → Key → Result Error (Unit {0})
unfolding require
validate_press c k = do
  reject_if (is_physical_key k && not (all_alphanumeric (key_name k))) invalid
  require c (key_capability k)

unfoldable pub validate_key : Config → Mode → ℕ → Action → Key → ℕ → Result Error (Unit {0})
unfolding validate_press
validate_key c mode press action k modifiers = do
  reject_if (press == 0 || not (modifiers / 256 == 0)) invalid
  reject_if (is_repeat action && is_physical_mode mode) unsupported
  reject_if (is_empty (key_name k) || (ltb 63 (length (key_name k)) || contains_nul (key_name k)))
      invalid
  if is_down action then validate_press c k else ok tt

unfoldable pub validate : Config → Mode → Event → Result Error (Unit {0})
unfolding validate_key position require
validate c mode (key press action k modifiers) = validate_key c mode press action k modifiers
validate c mode (text t) = do
  reject_if (is_empty t || ltb c.max_text_bytes (length t)) invalid
  require c cap_text
validate c mode (motion p) = do position c p; require c cap_pointer
validate c mode (button b action p) = do
  reject_if
      (not (leb 1 b && leb b 32)
        || (is_repeat action || (not (is_finite p.x) || not (is_finite p.y))))
      invalid
  if is_down action then position c p else ok tt
  require c cap_pointer
validate c mode (scroll e) = do
  reject_if
      (not (is_finite e.x)
        || (not (is_finite e.y) || (is_stationary e.phase && (nonzero_F64 e.x || nonzero_F64 e.y))))
      invalid
  position c e.position
  require c cap_scroll
