-- ===== src/Devices/Display/Session.antt =====
-- Any sequence of Core's calls into platform/safe3/display_core.c.
use virtual_trezor.Prelude.{
  ℕ, ◌*◌, ◌≡◌, refl, ◌∙◌, Bool, true, false, not, Option, none, some, List, [], ◌∷◌, length, ◌==◌,
  inl, inr, ◌⊎◌, ap, Bool-cases, arith, if◌then◌else◌,
}
use virtual_trezor.Prelude.Int.{ℤ, pos, negsuc}
use virtual_trezor.Exec.{Returns, Returns->>=, done, ◌>>=◌, ◌>>◌, pure}
use virtual_trezor.Protocol.{Answer}
use virtual_trezor.Devices.State.{World, Driver, Fault, Build, Bitblt, call}
use virtual_trezor.Devices.Balance.{acquired, released, started, stopped}
use virtual_trezor.Devices.Display.{
  ContentMode, safe3_frame_stride, effective_level, display_init, display_deinit,
  display_set_backlight, display_set_orientation, display_refresh, display_fill,
  display_copy_mono1p, draw, is_supported,
}
use virtual_trezor.Devices.Display.Starting.{IsSound, length-cleared, display_init-IsSound}

-- The calls of Core.
pub data Call : Type 0 where
  init deinit : ContentMode → Call
  set_backlight : ℕ → Call
  set_orientation : ℤ → Call
  refresh : Call
  fill copy : Bitblt → Call

unfoldable pub perform : Build → Call → Driver (Unit {0})
perform b (init mode) = display_init b mode >>= λ _. pure tt
perform b (deinit mode) = display_deinit mode
perform b (set_backlight level) = display_set_backlight b level >>= λ _. pure tt
perform b (set_orientation angle) = display_set_orientation angle >>= λ _. pure tt
perform b refresh = display_refresh b
perform b (fill bb) = display_fill b bb
perform b (copy bb) = display_copy_mono1p b bb

unfoldable pub perform_all : Build → List Call → Driver (Unit {0})
perform_all b [] = pure tt
perform_all b (c ∷ cs) = perform b c >> perform_all b cs

-- The firmware's drawing functions stay inside the frame buffer that they are given.
abbrev pub KeepsLength : (Bitblt → ℕ → ℕ → List ℕ → List ℕ) → Type 0
KeepsLength gfx =
    (bb : Bitblt) (offset stride : ℕ) (pixels : List ℕ)
    → length (gfx bb offset stride pixels) ≡ length pixels

-- A world whose display's two variables are given.
abbrev with_panel : Bool → Option ℕ → List Answer → World → World
with_panel initialized panel answers w = record w {
  display = record (w.display) { initialized = initialized; display = panel };
  answers = answers;
}

deinit-IsSound :
    (mode : ContentMode) (initialized : Bool) (panel : Option ℕ) (answers : List Answer) (w : World)
    → IsSound (with_panel initialized panel answers w)
    → Returns (display_deinit mode (with_panel initialized panel answers w)) λ _ v. IsSound v
unfolding display_deinit call acquired released started stopped
deinit-IsSound mode false panel answers w h = h
deinit-IsSound mode true none answers w h = absurd (let e = h.panel in cc)
deinit-IsSound mode true (some handle) [] w h = tt
deinit-IsSound mode true (some handle) (a ∷ rest) w h = record {
  panel = refl;
  handler = inl refl;
  whole = length-cleared mode w.display.framebuffer h.whole;
  upright = h.upright;
  blitter = (let e = h.blitter in omega arith);
  balanced = (let e = h.balanced in omega arith);
}

refresh-IsSound :
    (b : Build) (initialized : Bool) (panel : Option ℕ) (answers : List Answer) (w : World)
    → IsSound (with_panel initialized panel answers w)
    → Returns (display_refresh b (with_panel initialized panel answers w)) λ _ v. IsSound v
unfolding display_refresh call acquired released started stopped
refresh-IsSound b false panel answers w h = h
refresh-IsSound b true none answers w h = h
refresh-IsSound b true (some handle) [] w h = tt
refresh-IsSound b true (some handle) (a ∷ rest) w h = record {
  panel = h.panel;
  handler = h.handler;
  whole = h.whole;
  upright = h.upright;
  blitter = (let e = h.blitter in omega arith);
  balanced = (let e = h.balanced in omega arith);
}

with_level :
    (level : ℕ) (w : World)
    → IsSound w
    → IsSound (record w { display = record (w.display) { backlight_level = level } })
with_level level w h = record {
  panel = h.panel;
  handler = h.handler;
  whole = h.whole;
  upright = h.upright;
  blitter = h.blitter;
  balanced = h.balanced;
}

set_level :
    (b : Build) (level : ℕ) (initialized same : Bool) (w : World)
    → IsSound w
    → Returns
        ((if not initialized
            then pure false
            else if same
            then pure true
            else ((λ v.
                  done tt (record v { display = record (v.display) { backlight_level = level } }))
                >> display_refresh b
                >> pure true))
          w)
        λ _ v. IsSound v
set_level b level false same w h = h
set_level b level true true w h = h
set_level b level true false w h =
    let v : World = record w { display = record (w.display) { backlight_level = level } } in
    Returns->>= (display_refresh b) (λ _. pure true) (λ _ x. IsSound x) (λ _ x. IsSound x) v
      (refresh-IsSound b w.display.initialized w.display.display w.answers v (with_level level w h))
      λ _ x k. k

with_angle :
    (angle : ℤ) (w : World)
    → (angle ≡ pos 0) ⊎ (angle ≡ pos 180)
    → IsSound w
    → IsSound (record w { display = record (w.display) { orientation_angle = angle } })
with_angle angle w upright h = record {
  panel = h.panel;
  handler = h.handler;
  whole = h.whole;
  upright = upright;
  blitter = h.blitter;
  balanced = h.balanced;
}

is_supported-upright : (angle : ℤ) → is_supported angle ≡ true → (angle ≡ pos 0) ⊎ (angle ≡ pos 180)
is_supported-upright (pos n) h = elim (Bool-cases (n == 0)) [
  | inl p ↦ inl (ap pos (ground arith))
  | inr p ↦ inr (ap pos (ground arith))
]
is_supported-upright (negsuc n) h = absurd (cc)

set_angle :
    (angle : ℤ) (initialized supported : Bool) (w : World)
    → is_supported angle ≡ supported
    → IsSound w
    → Returns {F = Fault}
        ((if not initialized
            then pure (pos 0)
            else if supported
            then ((λ v.
                  done tt (record v { display = record (v.display) { orientation_angle = angle } }))
                >> pure angle)
            else pure w.display.orientation_angle)
          w)
        λ _ v. IsSound v
set_angle angle false supported w p h = h
set_angle angle true true w p h = with_angle angle w (is_supported-upright angle p) h
set_angle angle true false w p h = h

drawn :
    (gfx : Bitblt → ℕ → ℕ → List ℕ → List ℕ) (bb : Bitblt) (initialized : Bool) (w : World)
    → KeepsLength gfx
    → IsSound (with_panel initialized w.display.display w.answers w)
    → Returns (draw gfx bb (with_panel initialized w.display.display w.answers w)) λ _ v. IsSound v
drawn gfx bb false w keeps h = h
drawn gfx bb true w keeps h = record {
  panel = h.panel;
  handler = h.handler;
  whole =
      keeps bb (safe3_frame_stride * bb.dst_y) safe3_frame_stride w.display.framebuffer ∙ h.whole;
  upright = h.upright;
  blitter = h.blitter;
  balanced = h.balanced;
}

perform-IsSound :
    (b : Build) (c : Call) (w : World)
    → KeepsLength b.gfx_mono8_fill
    → KeepsLength b.gfx_mono8_copy_mono1p
    → IsSound w
    → Returns (perform b c w) λ _ v. IsSound v
unfolding perform display_set_orientation display_set_backlight display_fill display_copy_mono1p
perform-IsSound b (init mode) w fills copies h =
    Returns->>= (display_init b mode) (λ _. pure tt) (λ _ v. IsSound v) (λ _ v. IsSound v) w
      (display_init-IsSound b mode w h) λ _ v k. k
perform-IsSound b (deinit mode) w fills copies h =
    deinit-IsSound mode w.display.initialized w.display.display w.answers w h
perform-IsSound b (set_backlight level) w fills copies h =
    Returns->>= (display_set_backlight b level) (λ _. pure tt) (λ _ v. IsSound v) (λ _ v. IsSound v)
      w
      (set_level b (effective_level b.use_backlight level) w.display.initialized
        (w.display.backlight_level == effective_level b.use_backlight level) w h)
      λ _ v k. k
perform-IsSound b (set_orientation angle) w fills copies h =
    Returns->>= (display_set_orientation angle) (λ _. pure tt) (λ _ v. IsSound v) (λ _ v. IsSound v)
      w (set_angle angle w.display.initialized (is_supported angle) w refl h) λ _ v k. k
perform-IsSound b refresh w fills copies h =
    refresh-IsSound b w.display.initialized w.display.display w.answers w h
perform-IsSound b (fill bb) w fills copies h =
    drawn b.gfx_mono8_fill bb w.display.initialized w fills h
perform-IsSound b (copy bb) w fills copies h =
    drawn b.gfx_mono8_copy_mono1p bb w.display.initialized w copies h

-- Where the firmware's drawing functions keep to the frame buffer, every sequence of Core's calls into
-- the display that returns keeps its invariant, whatever the supervisor, the environment, the system
-- and the panel answer: the panel is there exactly while the display is initialized, with the exit
-- handler registered, a whole frame buffer and one of two orientations; the bit blitter is started and
-- stopped in turn; and every descriptor that was opened or granted for the display has been closed.
pub perform_all-IsSound_display :
    (b : Build) (calls : List Call) (w : World)
    → KeepsLength b.gfx_mono8_fill
    → KeepsLength b.gfx_mono8_copy_mono1p
    → IsSound w
    → Returns (perform_all b calls w) λ _ v. IsSound v
unfolding perform_all
perform_all-IsSound_display b [] w fills copies h = h
perform_all-IsSound_display b (c ∷ cs) w fills copies h =
    Returns->>= (perform b c) (λ _. perform_all b cs) (λ _ v. IsSound v) (λ _ v. IsSound v) w
      (perform-IsSound b c w fills copies h)
      λ _ v k. perform_all-IsSound_display b cs v fills copies k
