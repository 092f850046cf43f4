-- ===== src/Config/Accepted.antt =====
-- The command lines that platform/raspberry-pi/worker_config.c accepts.
use virtual_trezor.Prelude.{
  ◌≡◌, refl, ◌∙◌, ◌↔◌, ◌⊎◌, inl, inr, Bool, true, false, none, some, Option, List, [], ◌∷◌, ◌++◌,
  arith,
}
use virtual_trezor.Prelude.Text.{Text, codes, text_eq, strip_prefix, text_eq→eq, strip_prefix-cases}
use virtual_trezor.Config.{
  Backend, WorkerConfig, ConfigError, Argument, chosen, default_config, read_argument, select_once,
  parse_from, continue_with, worker_display_select_backend, select_legacy_i2c_display,
  worker_display_backend_name, worker_config_parse, ssd1306_i2c, sh1106_i2c, sh1106_spi, st7789_spi,
  separate, joined, unknown,
}

-- The values of `--i2c-display`, the older option.
pub data LegacyName : Text → Backend → Type 0 where
  ssd1306 : LegacyName (codes "ssd1306") ssd1306_i2c
  sh1106 : LegacyName (codes "sh1106") sh1106_i2c

-- The command lines that name a backend, and the one that leaves the choice open.
pub data Accepts : List Text → Backend → Type 0 where
  no_option : Accepts [] sh1106_spi
  display : (b : Backend) → Accepts (codes "--display" ∷ worker_display_backend_name b ∷ []) b
  display_joined :
      (b : Backend) → Accepts ((codes "--display=" ++ worker_display_backend_name b) ∷ []) b
  i2c_display :
      {b : Backend} (v : Text) → LegacyName v b → Accepts (codes "--i2c-display" ∷ v ∷ []) b
  i2c_display_joined :
      {b : Backend} (v : Text) → LegacyName v b → Accepts ((codes "--i2c-display=" ++ v) ∷ []) b

-- Selecting a backend by its own name selects that backend.
pub select-name :
    (c : WorkerConfig) (b : Backend)
    → worker_display_select_backend c (worker_display_backend_name b) ≡ chosen b
unfolding worker_display_select_backend worker_display_backend_name text_eq
select-name c ssd1306_i2c = refl
select-name c sh1106_i2c = refl
select-name c sh1106_spi = refl
select-name c st7789_spi = refl

-- Every command line of these forms is accepted, and selects the backend that it names.
Accepts-complete :
    (arguments : List Text) (b : Backend)
    → Accepts arguments b
    → worker_config_parse arguments ≡ chosen b
unfolding worker_config_parse parse_from read_argument select_once worker_display_select_backend
    select_legacy_i2c_display worker_display_backend_name text_eq strip_prefix
Accepts-complete _ _ no_option = refl
Accepts-complete _ _ (display ssd1306_i2c) = refl
Accepts-complete _ _ (display sh1106_i2c) = refl
Accepts-complete _ _ (display sh1106_spi) = refl
Accepts-complete _ _ (display st7789_spi) = refl
Accepts-complete _ _ (display_joined ssd1306_i2c) = refl
Accepts-complete _ _ (display_joined sh1106_i2c) = refl
Accepts-complete _ _ (display_joined sh1106_spi) = refl
Accepts-complete _ _ (display_joined st7789_spi) = refl
Accepts-complete _ _ (i2c_display _ ssd1306) = refl
Accepts-complete _ _ (i2c_display _ sh1106) = refl
Accepts-complete _ _ (i2c_display_joined _ ssd1306) = refl
Accepts-complete _ _ (i2c_display_joined _ sh1106) = refl

select→name :
    (c d : WorkerConfig) (v : Text)
    → worker_display_select_backend c v ≡ (d, none)
    → (v ≡ worker_display_backend_name d.display_backend) × (d ≡ (chosen d.display_backend).0)
unfolding worker_display_select_backend worker_display_backend_name
select→name c d v h = ground (
  arith,
  text_eq→eq v (codes "ssd1306-i2c"),
  text_eq→eq v (codes "sh1106-i2c"),
  text_eq→eq v (codes "sh1106-spi"),
  text_eq→eq v (codes "st7789-spi"),
)

-- With an option seen, nothing may follow.
parse_from_seen :
    (arguments : List Text) (c d : WorkerConfig)
    → parse_from arguments true c ≡ (d, none)
    → (arguments ≡ []) × (d ≡ c)
unfolding parse_from select_once
parse_from_seen [] c d h = ground arith
parse_from_seen (a ∷ []) c d h = ground arith
parse_from_seen (a ∷ v ∷ rest) c d h = ground arith

abbrev Reads : Text → Argument → Type 0
Reads a (separate false) = a ≡ codes "--display"
Reads a (separate true) = a ≡ codes "--i2c-display"
Reads a (joined false v) = a ≡ codes "--display=" ++ v
Reads a (joined true v) = a ≡ codes "--i2c-display=" ++ v
Reads a unknown = Unit

read_argument-Reads : (a : Text) → Reads a (read_argument a)
unfolding read_argument
read_argument-Reads a = ground (
  arith,
  text_eq→eq a (codes "--display"),
  text_eq→eq a (codes "--i2c-display"),
  strip_prefix-cases (codes "--display=") a,
  strip_prefix-cases (codes "--i2c-display=") a,
)

select→LegacyName :
    (c d : WorkerConfig) (v : Text)
    → select_legacy_i2c_display c v ≡ (d, none)
    → (LegacyName v d.display_backend) × (d ≡ (chosen d.display_backend).0)
unfolding select_legacy_i2c_display
select→LegacyName c d v h = elim known [
  | inl (p, q) ↦ (rw (p, q) ssd1306, chose)
  | inr (p, q) ↦ (rw (p, q) sh1106, chose)
]
  where
    known :
        ((v ≡ codes "ssd1306") × (d.display_backend ≡ ssd1306_i2c))
        ⊎ ((v ≡ codes "sh1106") × (d.display_backend ≡ sh1106_i2c))
    known = ground (arith, text_eq→eq v (codes "ssd1306"), text_eq→eq v (codes "sh1106"))

    chose : d ≡ (chosen d.display_backend).0
    chose = ground arith

continue_with-eq_none :
    (f : WorkerConfig → WorkerConfig × Option ConfigError) (r : WorkerConfig × Option ConfigError)
    (d : WorkerConfig)
    → continue_with f r ≡ (d, none)
    → (c : WorkerConfig) × (r ≡ (c, none)) × (f c ≡ (d, none))
continue_with-eq_none f (c, none) d h = (c, refl, h)
continue_with-eq_none f (c, some e) d h = absurd (ground arith)

abbrev IsAccepted : List Text → WorkerConfig → Type 0
IsAccepted arguments d = Accepts arguments d.display_backend × (d ≡ (chosen d.display_backend).0)

separate-IsAccepted :
    (a v : Text) (d : WorkerConfig) (legacy : Bool)
    → Reads a (separate legacy)
    → select_once false legacy default_config v ≡ (d, none)
    → IsAccepted (a ∷ v ∷ []) d
unfolding select_once
separate-IsAccepted a v d false p h =
    let (name, chose) = select→name default_config d v h in
    (rw (p, name) (display d.display_backend), chose)
separate-IsAccepted a v d true p h =
    let (name, chose) = select→LegacyName default_config d v h in (rw p (i2c_display v name), chose)

joined-IsAccepted :
    (a v : Text) (d : WorkerConfig) (legacy : Bool)
    → Reads a (joined legacy v)
    → select_once false legacy default_config v ≡ (d, none)
    → IsAccepted (a ∷ []) d
unfolding select_once
joined-IsAccepted a v d false p h =
    let (name, chose) = select→name default_config d v h in
    (rw (p, name) (display_joined d.display_backend), chose)
joined-IsAccepted a v d true p h =
    let (name, chose) = select→LegacyName default_config d v h in
    (rw p (i2c_display_joined v name), chose)

-- The options: one that is accepted stands alone.
last-IsAccepted :
    (a : Text) (d : WorkerConfig) (r : Argument)
    → read_argument a ≡ r
    → Reads a r
    → parse_from (a ∷ []) false default_config ≡ (d, none)
    → IsAccepted (a ∷ []) d
unfolding parse_from
last-IsAccepted a d (separate legacy) e p h = absurd (ground arith)
last-IsAccepted a d unknown e p h = absurd (ground arith)
last-IsAccepted a d (joined legacy v) e p h =
    let (c, chose, rest) =
      continue_with-eq_none (λ c. parse_from [] true c) (select_once false legacy default_config v)
        d (rw (e, parse_from) at h) in
    joined-IsAccepted a v d legacy p (chose ∙ ground (arith, parse_from_seen [] c d rest))

more-IsAccepted :
    (a v : Text) (rest : List Text) (d : WorkerConfig) (r : Argument)
    → read_argument a ≡ r
    → Reads a r
    → parse_from (a ∷ v ∷ rest) false default_config ≡ (d, none)
    → IsAccepted (a ∷ v ∷ rest) d
unfolding parse_from
more-IsAccepted a v rest d unknown e p h = absurd (ground arith)
more-IsAccepted a v rest d (joined legacy w) e p h =
    let (c, chose, after) =
      continue_with-eq_none (λ c. parse_from (v ∷ rest) true c)
        (select_once false legacy default_config w) d (rw (e, parse_from) at h) in
    absurd (ground (arith, parse_from_seen (v ∷ rest) c d after))
more-IsAccepted a v rest d (separate legacy) e p h =
    let (c, chose, after) =
      continue_with-eq_none (λ c. parse_from rest true c)
        (select_once false legacy default_config v) d (rw (e, parse_from) at h) in
    let (alone, same) = parse_from_seen rest c d after in
    rw alone (separate-IsAccepted a v d legacy p (chose ∙ ground (arith, same)))

Accepts-sound :
    (arguments : List Text) (d : WorkerConfig)
    → worker_config_parse arguments ≡ (d, none)
    → IsAccepted arguments d
unfolding worker_config_parse parse_from
Accepts-sound [] d h = let e : d ≡ (chosen sh1106_spi).0 = ground arith in rw e (no_option, refl)
Accepts-sound (a ∷ []) d h = last-IsAccepted a d (read_argument a) refl (read_argument-Reads a) h
Accepts-sound (a ∷ v ∷ rest) d h =
    more-IsAccepted a v rest d (read_argument a) refl (read_argument-Reads a) h

-- The parser accepts a command line exactly when it is empty (then SH1106 over SPI is selected) or
-- one option with a known name, and then it selects the backend named and marks it as selected.
pub worker_config_parse-Accepts :
    (arguments : List Text) (b : Backend)
    → (worker_config_parse arguments ≡ chosen b) ↔ Accepts arguments b
worker_config_parse-Accepts arguments b =
    (λ h. (Accepts-sound arguments (chosen b).0 h).0, Accepts-complete arguments b)
