-- ===== src/Legacy/Packets/Stalling.antt =====
-- Stalling an endpoint in platform/raspberry-pi/usb_functionfs.c.
use virtual_trezor.Prelude.{
  ℕ, ◌%◌, ◌≡◌, ◌∙◌, Bool, true, false, ◌&&◌, some, ◌==◌, inl, inr, Bool-cases, arith,
}
use virtual_trezor.Exec.{>>=-done, ◌>>=◌, done}
use virtual_trezor.Legacy.State.{World, VirtualEndpoint}
use virtual_trezor.Legacy.Endpoints.{endpoint_for, put_endpoint}
use virtual_trezor.Legacy.Endpoints.Table.{put_endpoint-found}
use virtual_trezor.Legacy.Packets.{virtual_ep_stall_set, virtual_ep_stall_get, set_stalled}

set_control :
    (address : ℕ) (b : Bool) (w : World)
    → (address % 128 == 0 && w.usb.control_active) ≡ true
    → virtual_ep_stall_set address b w
      ≡ done tt (record w { usb = record (w.usb) { control_stalled = b } })
unfolding virtual_ep_stall_set
set_control address b w h = ground arith

set_other :
    (address : ℕ) (b : Bool) (e : VirtualEndpoint) (w : World)
    → (address % 128 == 0 && w.usb.control_active) ≡ false
    → endpoint_for w.usb.endpoints address ≡ some e
    → virtual_ep_stall_set address b w
      ≡ done tt (record w {
        usb = record (w.usb) { endpoints = put_endpoint address (set_stalled b e) w.usb.endpoints };
      })
unfolding virtual_ep_stall_set
set_other address b e w h found = ground arith

get_control :
    (address : ℕ) (w : World)
    → (address % 128 == 0 && w.usb.control_active) ≡ true
    → virtual_ep_stall_get address w ≡ done w.usb.control_stalled w
unfolding virtual_ep_stall_get
get_control address w h = ground arith

get_other :
    (address : ℕ) (e : VirtualEndpoint) (w : World)
    → (address % 128 == 0 && w.usb.control_active) ≡ false
    → endpoint_for w.usb.endpoints address ≡ some e
    → virtual_ep_stall_get address w ≡ done e.stalled w
unfolding virtual_ep_stall_get
get_other address e w h found = ground arith

-- What virtual_ep_stall_set sets at an endpoint that is there, virtual_ep_stall_get reads back, at the
-- endpoint of a control transfer and at any other.
pub virtual_ep_stall_set-get :
    (address : ℕ) (b : Bool) (e : VirtualEndpoint) (w : World)
    → endpoint_for w.usb.endpoints address ≡ some e
    → (v : World) × ((virtual_ep_stall_set address b >>= λ _. virtual_ep_stall_get address) w
        ≡ done b v)
virtual_ep_stall_set-get address b e w h =
    elim (Bool-cases (address % 128 == 0 && w.usb.control_active)) [
      | inl control ↦
          let v : World = record w { usb = record (w.usb) { control_stalled = b } } in
          (
            v,
            >>=-done (virtual_ep_stall_set address b) (λ _. virtual_ep_stall_get address) w v tt
                  (set_control address b w control)
                ∙ get_control address v control,
          )
      | inr other ↦
          let v : World = record w {
            usb = record (w.usb) {
              endpoints = put_endpoint address (set_stalled b e) w.usb.endpoints;
            };
          } in
          (
            v,
            >>=-done (virtual_ep_stall_set address b) (λ _. virtual_ep_stall_get address) w v tt
                  (set_other address b e w other h)
                ∙ get_other address (set_stalled b e) v other
                    (put_endpoint-found address w.usb.endpoints e (set_stalled b e) h),
          )
    ]
