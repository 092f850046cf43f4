-- ===== src/Legacy/Endpoints/Table.antt =====
-- The table of endpoints of platform/raspberry-pi/usb_functionfs.c as a store.
use virtual_trezor.Prelude.{
  ℕ, ◌%◌, ◌≡◌, some, List, get_elem?, set, get_elem?-set_found, inl, inr, Bool-cases, Option-cases,
  arith,
}
use virtual_trezor.Legacy.State.{VirtualEndpoint, Row}
use virtual_trezor.Legacy.Endpoints.{endpoint_for, put_endpoint, direction_in, with_side}

-- What is put at an endpoint's address is found there.
pub put_endpoint-found :
    (address : ℕ) (rows : List Row) (e e' : VirtualEndpoint)
    → endpoint_for rows address ≡ some e
    → endpoint_for (put_endpoint address e' rows) address ≡ some e'
unfolding endpoint_for put_endpoint
put_endpoint-found address rows e e' h = elim (Option-cases (get_elem? rows (address % 128))) [
  | inl missing ↦ absurd (ground arith)
  | inr (row, found) ↦
      let back : get_elem? (set rows (address % 128) (with_side (direction_in address) e' row))
            (address % 128)
          ≡ some (with_side (direction_in address) e' row) =
        get_elem?-set_found rows (address % 128) _ found in
      elim (Bool-cases (direction_in address)) [ inl d ↦ ground arith | inr d ↦ ground arith ]
]
