-- ===== src/Park/Cells.antt =====
-- kernel/park/src/lib.rs: `ParkTicketCell`, `UnparkTicketCell` and `Waker`. Each is one atomic pointer to
-- a slot, null when it holds nothing; a slot is named by its reservation.
use muffin.Base.{
  ℕ, zero, suc, ◌≡◌, refl, ap, Bool, true, false, Option, none, some, List, [], ◌∷◌, ◌++◌,
  replicate, Result, ok, err,
}
use muffin.Park.Slots.{Slot, Unparker, missed, unpark}
use muffin.Park.Lot.{Reservation}

-- The pointer of a cell.
abbrev pub Cell : Type 0
Cell = Option Reservation

-- The compare-exchange from null that all offers start with.
abbrev pub store_if_null : Cell → Reservation → Cell × Bool
store_if_null none r = (some r, true)
store_if_null (some q) r = (some q, false)

-- `ParkTicketCell::put`: a refused ticket is handed back.
unfoldable pub put : Cell → Reservation → Cell × Result (Unit {0}) Reservation
put c r =
    let (c', stored) = store_if_null c r in elim stored [ true ↦ (c', ok tt) | false ↦ (c', err r) ]

-- `ParkTicketCell::put_reservation`: the other right of the slot, or the whole reservation back.
unfoldable pub put_reservation : Cell → Reservation → Cell × Result Reservation Reservation
put_reservation c r =
    let (c', stored) = store_if_null c r in elim stored [ true ↦ (c', ok r) | false ↦ (c', err r) ]

-- `ParkTicketCell::take`.
unfoldable pub take_ticket : Cell → Cell × Option Reservation
take_ticket c = (none, c)

-- `UnparkTicketCell::put_reservation` and `UnparkTicketCell::take`.
unfoldable unpark_put_reservation : Cell → Reservation → Cell × Result Reservation Reservation
unpark_put_reservation c r =
    let (c', stored) = store_if_null c r in elim stored [ true ↦ (c', ok r) | false ↦ (c', err r) ]

unfoldable unpark_take : Cell → Cell × Option Reservation
unpark_take c = (none, c)

-- `ParkTicketCell::has_ticket`.
unfoldable pub has_ticket : Cell → Bool
has_ticket none = false
has_ticket (some r) = true

-- One call on a cell that wake sources and tasks share. Each is a single atomic operation.
pub data CellCall : Type 0 where
  puts puts_reservation : Reservation → CellCall
  takes : CellCall

-- The tickets that a call stores, and those that it takes.
unfoldable pub stores : Cell → CellCall → List Reservation
unfolding put put_reservation
stores c (puts r) = elim (put c r).1 [ ok u ↦ r ∷ [] | err q ↦ [] ]
stores c (puts_reservation r) = elim (put_reservation c r).1 [ ok q ↦ q ∷ [] | err q ↦ [] ]
stores c takes = []

unfoldable pub hands_out : Cell → CellCall → List Reservation
unfolding take_ticket
hands_out c takes = elim (take_ticket c).1 [ none ↦ [] | some r ↦ r ∷ [] ]
hands_out c _ = []

unfoldable pub call_cell : Cell → CellCall → Cell
unfolding put put_reservation take_ticket
call_cell c (puts r) = (put c r).0
call_cell c (puts_reservation r) = (put_reservation c r).0
call_cell c takes = (take_ticket c).0

unfoldable pub run_cell : Cell → List CellCall → Cell
run_cell c [] = c
run_cell c (x ∷ xs) = run_cell (call_cell c x) xs

unfoldable pub all_stored : Cell → List CellCall → List Reservation
all_stored c [] = []
all_stored c (x ∷ xs) = stores c x ++ all_stored (call_cell c x) xs

unfoldable pub all_handed_out : Cell → List CellCall → List Reservation
all_handed_out c [] = []
all_handed_out c (x ∷ xs) = hands_out c x ++ all_handed_out (call_cell c x) xs

unfoldable pub held : Cell → List Reservation
held none = []
held (some r) = r ∷ []

append_nil : (xs : List Reservation) → xs ++ [] ≡ xs
append_nil [] = refl
append_nil (x ∷ xs) = ap (λ l. x ∷ l) (append_nil xs)

call_keeps :
    (c : Cell) (x : CellCall) (out rest kept : List Reservation)
    → held (call_cell c x) ++ rest ≡ out ++ kept
    → held c ++ (stores c x ++ rest) ≡ (hands_out c x ++ out) ++ kept
unfolding held call_cell stores hands_out put put_reservation take_ticket
call_keeps none (puts r) out rest kept h = h
call_keeps (some q) (puts r) out rest kept h = h
call_keeps none (puts_reservation r) out rest kept h = h
call_keeps (some q) (puts_reservation r) out rest kept h = h
call_keeps none takes out rest kept h = h
call_keeps (some q) takes out rest kept h = ap (λ l. q ∷ l) h

-- Over any sequence of calls on a cell, the ticket it held first and those it accepted are, in order,
-- those it handed out and the one it holds: none is lost and none is handed out twice.
pub run_cell_conserves :
    (c : Cell) (xs : List CellCall)
    → held c ++ all_stored c xs ≡ all_handed_out c xs ++ held (run_cell c xs)
unfolding all_stored all_handed_out run_cell
run_cell_conserves c [] = append_nil (held c)
run_cell_conserves c (x ∷ xs) =
    call_keeps c x (all_handed_out (call_cell c x) xs) (all_stored (call_cell c x) xs)
      (held (run_cell (call_cell c x) xs)) (run_cell_conserves (call_cell c x) xs)

-- A waker that was armed with a ticket, and the slot of that ticket.
pub record Waking (T : Type 0) : Type 0 where
  pub pointer : Option Reservation
  pub target : Slot T

module _ {T : Type 0} where
  -- `Waker::wake`; `missed` is its answer `None`.
  unfoldable pub wake : Waking T → Waking T × Unparker T
  unfolding unpark
  wake w = elim w.pointer [
    | none ↦ (w, missed)
    | some r ↦ let (s, u) = unpark w.target in (record { pointer = none; target = s }, u)
  ]

  -- `n` clones fire one after the other; what each answers.
  unfoldable pub wakes : ℕ → Waking T → Waking T × List (Unparker T)
  wakes zero w = (w, [])
  wakes (suc n) w = let (w1, u) = wake w in let (w2, us) = wakes n w1 in (w2, u ∷ us)

  later_wakes :
      (n : ℕ) (s : Slot T)
      → let w : Waking T = record { pointer = none; target = s } in
        wakes n w ≡ (w, replicate n missed)
  unfolding wakes wake
  later_wakes zero s = refl
  later_wakes (suc n) s = rw (later_wakes n s) refl

  -- Of any number of clones of an armed waker that fire, the first unparks the slot, and every later one
  -- answers `None` and leaves the slot alone.
  wakes_once :
      (n : ℕ) (r : Reservation) (s : Slot T)
      → wakes (suc n) (record { pointer = some r; target = s })
        ≡ (record { pointer = none; target = (unpark s).0 }, (unpark s).1 ∷ replicate n missed)
  unfolding wakes wake
  wakes_once n r s = rw (later_wakes n (unpark s).0) refl
