-- ===== src/Devices/Display/Starting.antt =====
-- What display_init of platform/safe3/display_core.c leaves behind, on every branch.
use virtual_trezor.Prelude.{
  ℕ, suc, ◌+◌, ◌≡◌, refl, ◌∙◌, Bool, true, false, not, Option, none, some, is_some, List, [], ◌∷◌,
  length, length-replicate, inl, inr, ◌⊎◌, arith, if◌then◌else◌,
}
use virtual_trezor.Prelude.Int.{pos}
use virtual_trezor.Prelude.Text.{codes}
use virtual_trezor.Exec.{done, Returns, Returns->>=, ◌>>=◌, ◌>>◌, pure}
use virtual_trezor.Config.{WorkerConfig, ConfigError, worker_display_select_backend}
use virtual_trezor.Protocol.{Answer, failed, number, buffer}
use virtual_trezor.Devices.State.{
  World, Build, DisplayResources, created_display, stopped_gfx, started_gfx, call, descriptor_of,
}
use virtual_trezor.Devices.Resources.{
  safe3_display_resources_release, safe3_display_resources_acquire,
}
use virtual_trezor.Devices.Balance.{
  one, owned, acquired, released, started, stopped, Moves, Acquires,
  safe3_display_resources_acquire-Acquires, safe3_display_resources_release-Moves,
}
use virtual_trezor.Devices.Display.{
  ContentMode, reset_content, retain_content, cleared, safe3_frame_length, display_backend_kind,
  was_selected, backlight_of, register_shutdown, reset_display, select_backend, start_panel,
  create_panel, start_display, display_init,
}

-- The display's variables and what is held agree: the panel is there exactly while it is initialized,
-- then the exit handler is registered, the frame buffer is whole, the orientation is one of two; the
-- bit blitter runs exactly while the display is initialized, and no descriptor is held.
pub record IsSound (w : World) : Type 0 where
  pub panel : is_some w.display.display ≡ w.display.initialized
  pub handler : (w.display.initialized ≡ false) ⊎ (w.display.shutdown_registered ≡ true)
  pub whole : length w.display.framebuffer ≡ safe3_frame_length
  pub upright : (w.display.orientation_angle ≡ pos 0) ⊎ (w.display.orientation_angle ≡ pos 180)
  pub blitter : started w.log ≡ stopped w.log + one w.display.initialized
  pub balanced : acquired w.log ≡ released w.log

-- The state in the middle of display_init: the handler is registered, the bit blitter runs.
abbrev pub IsStarting : ℕ → World → Type 0
IsStarting held w =
    (w.display.display ≡ none)
    × (w.display.initialized ≡ false)
    × (w.display.shutdown_registered ≡ true)
    × (length w.display.framebuffer ≡ safe3_frame_length)
    × (w.display.orientation_angle ≡ pos 0)
    × (started w.log ≡ suc (stopped w.log))
    × (acquired w.log ≡ released w.log + held)

pub length-cleared :
    (mode : ContentMode) (pixels : List ℕ)
    → length pixels ≡ safe3_frame_length
    → length (cleared mode pixels) ≡ safe3_frame_length
length-cleared reset_content pixels h = length-replicate {A = ℕ} safe3_frame_length 0
length-cleared retain_content pixels h = h

-- It gives up: the bit blitter stops.
give_up : (w : World) → IsStarting 0 w → IsSound (record w { log = stopped_gfx ∷ w.log })
unfolding acquired released started stopped
give_up w (a, b, c, d, e, f, g) = record {
  panel = ground arith;
  handler = inl b;
  whole = d;
  upright = inl e;
  blitter = ground arith;
  balanced = omega arith;
}

start_panel-IsSound :
    (o : Option ℕ) (w : World) → IsStarting 0 w → Returns (start_panel o w) λ _ w'. IsSound w'
start_panel-IsSound none w h = give_up w h
start_panel-IsSound (some panel) w (a, b, c, d, e, f, g) = record {
  panel = refl;
  handler = inr c;
  whole = d;
  upright = inl e;
  blitter = ground arith;
  balanced = omega arith;
}

-- The state after calls that move descriptors only.
moved :
    (gained lost held held' : ℕ) (w w' : World)
    → Moves gained lost w w'
    → held + gained ≡ held' + lost
    → IsStarting held w
    → IsStarting held' w'
moved gained lost held held' w w' (m, n, p, q, r) total (a, b, c, d, e, f, g) = (
  (let k = m in ground arith),
  ground arith,
  ground arith,
  ground arith,
  ground arith,
  omega arith,
  omega arith,
)

created :
    (b : Build) (r : DisplayResources) (answers : List Answer) (w : World)
    → IsStarting (owned r) w
    → Returns
        ((call >>= λ a. safe3_display_resources_release r >>= λ _. start_panel (descriptor_of a))
          (record w { answers = answers }))
        λ _ w'. IsSound w'
unfolding call
created b r [] w h = tt
created b r (a ∷ rest) w h =
    Returns->>= (safe3_display_resources_release r) (λ _. start_panel (descriptor_of a))
      (λ _ v. Moves 0 (owned r) w v) (λ _ v. IsSound v) (record w { answers = rest })
      (safe3_display_resources_release-Moves r (record w { answers = rest }))
      λ _ v m.
        start_panel-IsSound (descriptor_of a) v
          (moved 0 (owned r) (owned r) 0 w v m (omega arith) h)

create_panel-IsSound :
    (b : Build) (ok : Bool) (r : DisplayResources) (w : World)
    → (ok ≡ true) ⊎ (owned r ≡ 0)
    → IsStarting (owned r) w
    → Returns (create_panel b (ok, r) w) λ _ w'. IsSound w'
unfolding acquired released started stopped
create_panel-IsSound b false r w (inl impossible) h = absurd (cc)
create_panel-IsSound b false r w (inr nothing) (h, i, j, k, l, m, n) =
    give_up w (h, i, j, k, l, m, omega arith)
create_panel-IsSound b true r w none_left (h, i, j, k, l, m, n) =
    created b r w.answers
      (record w {
        log =
            created_display (display_backend_kind b.kinds w.config.display_backend) r.bus_fd
              r.control_fd
            ∷ w.log;
      })
      (h, i, j, k, l, m, n)

-- From the selection of the backend on.
select_and_create :
    (b : Build) (selected : Bool) (w : World)
    → IsStarting 0 w
    → Returns
        ((if not selected
            then ((λ v. done tt (record v { log = stopped_gfx ∷ v.log })) >> pure false)
            else (safe3_display_resources_acquire b >>= create_panel b))
          w)
        λ _ w'. IsSound w'
select_and_create b false w h = give_up w h
select_and_create b true w h =
    Returns->>= (safe3_display_resources_acquire b) (create_panel b) (Acquires w) (λ _ v. IsSound v)
      w (safe3_display_resources_acquire-Acquires b w)
      λ (ok, r) v (m, left).
        create_panel-IsSound b ok r v left (moved (owned r) 0 0 (owned r) w v m (omega arith) h)

select_backend-IsStarting :
    (w : World) → IsStarting 0 w → Returns (select_backend w) λ _ w'. IsStarting 0 w'
unfolding select_backend
select_backend-IsStarting w h =
    by_choice w.config.display_backend_selected
      (worker_display_select_backend w.config (codes "st7789-spi"))
  where
    by_choice :
        (selected : Bool) (r : WorkerConfig × Option ConfigError)
        → Returns {W = World}
            ((if selected then pure true else was_selected r) w)
            λ _ w'. IsStarting 0 w'
    by_choice true r = h
    by_choice false (c, none) = h
    by_choice false (c, some error) = h

not_some : {A : Type 0} (o : Option A) → is_some o ≡ false → o ≡ none
not_some none h = refl
not_some (some a) h = absurd (cc)

-- The display starts, and either runs or has stopped again.
start_display-IsSound :
    (b : Build) (mode : ContentMode) (w : World)
    → IsSound w
    → w.display.initialized ≡ false
    → w.display.shutdown_registered ≡ true
    → Returns (start_display b mode w) λ _ w'. IsSound w'
unfolding start_display reset_display acquired released started stopped
start_display-IsSound b mode w sound off registered =
    let v : World = record w {
      display = record (w.display) {
        orientation_angle = pos 0;
        backlight_level = backlight_of b.use_backlight;
        framebuffer = cleared mode w.display.framebuffer;
      };
      log = started_gfx ∷ w.log;
    } in
    let begun : IsStarting 0 v = (
      not_some w.display.display (sound.panel ∙ off),
      off,
      registered,
      length-cleared mode w.display.framebuffer sound.whole,
      refl,
      (let h = sound.blitter in ground arith),
      omega (arith, sound.balanced),
    ) in
    Returns->>= select_backend
      (λ selected.
        if not selected
        then ((λ x. done tt (record x { log = stopped_gfx ∷ x.log })) >> pure false)
        else (safe3_display_resources_acquire b >>= create_panel b))
      (λ _ x. IsStarting 0 x) (λ _ x. IsSound x) v (select_backend-IsStarting v begun)
      λ selected x h. select_and_create b selected x h

same_but_answers :
    (answers : List Answer) (w : World) → IsSound w → IsSound (record w { answers = answers })
same_but_answers answers w h = record {
  panel = h.panel;
  handler = h.handler;
  whole = h.whole;
  upright = h.upright;
  blitter = h.blitter;
  balanced = h.balanced;
}

with_handler :
    (answers : List Answer) (w : World)
    → IsSound (record w { display = record (w.display) { shutdown_registered = false } })
    → IsSound (record w {
      display = record (w.display) { shutdown_registered = true };
      answers = answers;
    })
with_handler answers w h = record {
  panel = h.panel;
  handler = inr refl;
  whole = h.whole;
  upright = h.upright;
  blitter = h.blitter;
  balanced = h.balanced;
}

-- Registering the handler does not touch the rest.
register_shutdown-IsSound :
    (registered : Bool) (answers : List Answer) (w : World)
    → IsSound (record w { display = record (w.display) { shutdown_registered = registered } })
    → Returns
        (register_shutdown (record w {
          display = record (w.display) { shutdown_registered = registered };
          answers = answers;
        }))
        λ ok v.
          IsSound v
          × (v.display.initialized ≡ w.display.initialized)
          × ((ok ≡ false) ⊎ (v.display.shutdown_registered ≡ true))
unfolding register_shutdown call
register_shutdown-IsSound true answers w h = (same_but_answers answers _ h, refl, inr refl)
register_shutdown-IsSound false [] w h = tt
register_shutdown-IsSound false (failed e ∷ rest) w h = (same_but_answers rest _ h, refl, inl refl)
register_shutdown-IsSound false (number n ∷ rest) w h = (with_handler rest w h, refl, inr refl)
register_shutdown-IsSound false (buffer x ∷ rest) w h = (with_handler rest w h, refl, inr refl)

continue_init :
    (b : Build) (mode : ContentMode) (ok : Bool) (w : World)
    → IsSound w
    → w.display.initialized ≡ false
    → (ok ≡ false) ⊎ (w.display.shutdown_registered ≡ true)
    → Returns ((if ok then start_display b mode else pure false) w) λ _ v. IsSound v
continue_init b mode false w h off registered = h
continue_init b mode true w h off (inl impossible) = absurd (cc)
continue_init b mode true w h off (inr registered) = start_display-IsSound b mode w h off registered

pub display_init-IsSound :
    (b : Build) (mode : ContentMode) (w : World)
    → IsSound w
    → Returns (display_init b mode w) λ _ v. IsSound v
unfolding display_init
display_init-IsSound b mode w h = by_state w.display.initialized refl
  where
    by_state :
        (initialized : Bool)
        → w.display.initialized ≡ initialized
        → Returns
            ((if initialized then pure true else do
              registered ← register_shutdown
              if registered then start_display b mode else pure false)
              w)
            λ _ v. IsSound v
    by_state true p = h
    by_state false p =
        Returns->>= register_shutdown
          (λ registered. if registered then start_display b mode else pure false)
          (λ ok v.
            IsSound v
            × (v.display.initialized ≡ w.display.initialized)
            × ((ok ≡ false) ⊎ (v.display.shutdown_registered ≡ true)))
          (λ _ v. IsSound v) w
          (register_shutdown-IsSound w.display.shutdown_registered w.answers w h)
          λ ok v (sound, same, registered). continue_init b mode ok v sound (same ∙ p) registered
