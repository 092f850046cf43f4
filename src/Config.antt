-- ===== src/Config.antt =====
-- platform/raspberry-pi/worker_config.c: the display backend that the command line selects.
-- `argv` without the program's name is a list of texts; the two static variables are a record; the
-- message that a failure writes into `error` is a constructor of `ConfigError`.
pub mod Accepted
use virtual_trezor.Prelude.{
  Bool, true, false, ◌||◌, Option, none, some, List, [], ◌∷◌, if◌then◌else◌,
}
use virtual_trezor.Prelude.Text.{Text, codes, text_eq, strip_prefix}

-- display_backend_t
pub data Backend : Type 0 where
  ssd1306_i2c sh1106_i2c sh1106_spi st7789_spi : Backend

pub record WorkerConfig : Type 0 where
  pub display_backend : Backend
  pub display_backend_selected : Bool

pub data ConfigError : Type 0 where
  unsupported_display unsupported_i2c_display unknown_argument : Text → ConfigError
  display_needs_value i2c_display_needs_value display_repeated : ConfigError

abbrev pub chosen : Backend → WorkerConfig × Option ConfigError
chosen b = (record { display_backend = b; display_backend_selected = true }, none)

unfoldable pub worker_display_select_backend :
    WorkerConfig → Text → WorkerConfig × Option ConfigError
worker_display_select_backend c value =
    if text_eq value (codes "ssd1306-i2c")
    then chosen ssd1306_i2c
    else if text_eq value (codes "sh1106-i2c")
    then chosen sh1106_i2c
    else if text_eq value (codes "sh1106-spi")
    then chosen sh1106_spi
    else if text_eq value (codes "st7789-spi")
    then chosen st7789_spi
    else (c, some (unsupported_display value))

unfoldable pub select_legacy_i2c_display : WorkerConfig → Text → WorkerConfig × Option ConfigError
select_legacy_i2c_display c value =
    if text_eq value (codes "ssd1306")
    then chosen ssd1306_i2c
    else if text_eq value (codes "sh1106")
    then chosen sh1106_i2c
    else (c, some (unsupported_i2c_display value))

-- What one argument is: an option that takes the next argument, or one with its value behind `=`.
-- The flag is `legacy_i2c`.
pub data Argument : Type 0 where
  separate : Bool → Argument
  joined : Bool → Text → Argument
  unknown : Argument

unfoldable pub read_argument : Text → Argument
read_argument a =
    if text_eq a (codes "--display")
    then separate false
    else elim (strip_prefix (codes "--display=") a) [
      | some value ↦ joined false value
      | none ↦
          if text_eq a (codes "--i2c-display")
          then separate true
          else elim (strip_prefix (codes "--i2c-display=") a) [
            | some value ↦ joined true value
            | none ↦ unknown
          ]
    ]

-- The end of the loop's body: the value is known, `seen` is `display_seen`.
unfoldable pub select_once : Bool → Bool → WorkerConfig → Text → WorkerConfig × Option ConfigError
select_once seen legacy c value =
    if seen
    then (c, some display_repeated)
    else if legacy
    then select_legacy_i2c_display c value
    else worker_display_select_backend c value

abbrev needs_value : Bool → ConfigError
needs_value true = i2c_display_needs_value
needs_value false = display_needs_value

abbrev pub continue_with :
    (WorkerConfig → WorkerConfig × Option ConfigError)
    → WorkerConfig × Option ConfigError
    → WorkerConfig × Option ConfigError
continue_with rest (c, none) = rest c
continue_with rest (c, some e) = (c, some e)

-- The loop over `argv`, from an index on, and the default behind it.
unfoldable pub parse_from : List Text → Bool → WorkerConfig → WorkerConfig × Option ConfigError
parse_from [] seen c = (if seen then c else record c { display_backend_selected = true }, none)
parse_from (a ∷ []) seen c = elim (read_argument a) [
  | separate legacy ↦ (c, some (needs_value legacy))
  | joined legacy value ↦
      continue_with (λ d. parse_from [] true d) (select_once seen legacy c value)
  | unknown ↦ (c, some (unknown_argument a))
]
parse_from (a ∷ v ∷ rest) seen c = elim (read_argument a) [
  | separate legacy ↦ continue_with (λ d. parse_from rest true d) (select_once seen legacy c v)
  | joined legacy value ↦
      continue_with (λ d. parse_from (v ∷ rest) true d) (select_once seen legacy c value)
  | unknown ↦ (c, some (unknown_argument a))
]

abbrev pub default_config : WorkerConfig
default_config = record { display_backend = sh1106_spi; display_backend_selected = false }

unfoldable pub worker_config_parse : List Text → WorkerConfig × Option ConfigError
worker_config_parse arguments = parse_from arguments false default_config

unfoldable pub worker_display_is_sh1106 : WorkerConfig → Bool
worker_display_is_sh1106 c = elim c.display_backend [
  | sh1106_i2c ↦ true
  | sh1106_spi ↦ true
  | _ ↦ false
]

unfoldable pub worker_display_is_st7789 : WorkerConfig → Bool
worker_display_is_st7789 c = elim c.display_backend [ st7789_spi ↦ true | _ ↦ false ]

unfoldable pub worker_display_uses_spi : WorkerConfig → Bool
worker_display_uses_spi c = elim c.display_backend [
  | sh1106_spi ↦ true
  | st7789_spi ↦ true
  | _ ↦ false
]

unfoldable pub worker_display_backend_name : Backend → Text
worker_display_backend_name ssd1306_i2c = codes "ssd1306-i2c"
worker_display_backend_name sh1106_i2c = codes "sh1106-i2c"
worker_display_backend_name sh1106_spi = codes "sh1106-spi"
worker_display_backend_name st7789_spi = codes "st7789-spi"
