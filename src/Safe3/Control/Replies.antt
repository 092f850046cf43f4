-- ===== src/Safe3/Control/Replies.antt =====
-- What answer_control_request of platform/safe3/usb_supervisor.c answers.
use virtual_trezor.Prelude.{
  ℕ, ◌/◌, ◌%◌, ◌≡◌, refl, Bool, true, false, not, ◌&&◌, ◌||◌, Option, none, some, is_some, List, [],
  ◌∷◌, length, set, length-set, ◌==◌, arith, if◌then◌else◌,
}
use virtual_trezor.Safe3.State.{Driver, Interface}
use virtual_trezor.Safe3.Endpoints.{interface_for_number}
use virtual_trezor.Safe3.Control.{
  Setup, Reply, stall, acknowledge, respond, control_reply, hid_reply, hid_reply_to, hid_interface,
  direction_in, request_class, recipient, msft, url, report_reply,
}

Reply-if {ℓ} : (P : Reply → Type ℓ) (b : Bool) (x y : Reply) → P x → P y → P (if b then x else y)
Reply-if P true x y h k = h
Reply-if P false x y h k = k

-- An acknowledgement keeps the number of interfaces.
pub data KeepsSlots (n : ℕ) : Reply → Type 0 where
  keeps_by_stall : KeepsSlots n stall
  keeps_by_response : (response : List ℕ) → KeepsSlots n (respond response)
  keeps_by_set :
      (interfaces : List Interface) → length interfaces ≡ n → KeepsSlots n (acknowledge interfaces)

pub KeepsSlots-acknowledged :
    (n : ℕ) (interfaces : List Interface)
    → KeepsSlots n (acknowledge interfaces)
    → length interfaces ≡ n
KeepsSlots-acknowledged n _ (keeps_by_set interfaces h) = h

with_interface-KeepsSlots :
    (interfaces : List Interface) (slot : ℕ) (i : Interface)
    → KeepsSlots (length interfaces) (acknowledge (set interfaces slot i))
with_interface-KeepsSlots interfaces slot i = keeps_by_set _ (length-set interfaces slot i)

hid_reply-KeepsSlots :
    (interfaces : List Interface) (slot : ℕ) (i : Interface) (s : Setup)
    → KeepsSlots (length interfaces) (hid_reply interfaces slot i s)
unfolding hid_reply
hid_reply-KeepsSlots interfaces slot i s =
    let n = length interfaces in
    let idle : KeepsSlots n (respond (i.hid_idle ∷ [])) = keeps_by_response _ in
    let protocol : KeepsSlots n (respond (i.hid_protocol ∷ [])) = keeps_by_response _ in
    let nothing : KeepsSlots n (respond []) = keeps_by_response [] in
    let silent : KeepsSlots n stall = keeps_by_stall in
    let same : KeepsSlots n (acknowledge interfaces) = keeps_by_set interfaces refl in
    let idle_set =
      with_interface-KeepsSlots interfaces slot (record i { hid_idle = s.value / 256 % 256 }) in
    let protocol_set =
      with_interface-KeepsSlots interfaces slot (record i { hid_protocol = s.value % 256 }) in
    ground arith

hid_reply_to-KeepsSlots :
    (interfaces : List Interface) (slot : ℕ) (o : Option Interface) (s : Setup)
    → KeepsSlots (length interfaces) (hid_reply_to interfaces slot o s)
hid_reply_to-KeepsSlots interfaces slot none s = keeps_by_stall
hid_reply_to-KeepsSlots interfaces slot (some i) s = hid_reply-KeepsSlots interfaces slot i s

report_reply-KeepsSlots : (n : ℕ) (o : Option Interface) → KeepsSlots n (report_reply o)
report_reply-KeepsSlots n none = keeps_by_stall
report_reply-KeepsSlots n (some i) = keeps_by_response _

pub control_reply-KeepsSlots :
    (u : Driver) (s : Setup) → KeepsSlots (length u.interfaces) (control_reply u s)
unfolding control_reply
control_reply-KeepsSlots u s =
    let P = KeepsSlots (length u.interfaces) in
    let iface = interface_for_number u.interfaces (s.index % 256) in
    let kind = request_class s in
    let descriptor = kind == 0 && direction_in s && s.request == 0x06 in
    Reply-if P (descriptor && s.value / 256 == 0x22 && hid_interface iface) _ _
      (report_reply-KeepsSlots _ iface)
      (Reply-if P (descriptor && s.value / 256 == 3 && s.value % 256 == 0xee) _ _
        (keeps_by_response msft)
        (Reply-if P (kind == 0 && direction_in s && s.request == 0x00) _ _
          (keeps_by_response (0 ∷ 0 ∷ []))
          (Reply-if P (kind == 0 && direction_in s && s.request == 0x08) _ _
            (keeps_by_response ((if u.enabled then 1 else 0) ∷ []))
            (Reply-if P
              (kind == 0
                && recipient s == 1
                && direction_in s
                && s.request == 0x0a
                && is_some iface)
              _ _ (keeps_by_response (0 ∷ []))
              (Reply-if P
                (kind == 0
                  && not (direction_in s)
                  && (s.request == 0x0b
                      || s.request == 0x09
                      || s.request == 0x01
                      || s.request == 0x03))
                _ _ (keeps_by_set u.interfaces refl)
                (Reply-if P (kind == 1 && recipient s == 1 && hid_interface iface) _ _
                  (hid_reply_to-KeepsSlots u.interfaces (s.index % 256) iface s)
                  (Reply-if P
                    (kind == 2
                      && recipient s == 0
                      && direction_in s
                      && s.request == 0x01
                      && s.index == 0x0002
                      && s.value == 0x0001)
                    _ _ (keeps_by_response url) keeps_by_stall)))))))
