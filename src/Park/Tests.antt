-- ===== src/Park/Tests.antt =====
-- Runs of the parking lot, and its theorems at concrete interleavings and lots.
use muffin.Base.{ℕ, ◌≡◌, refl, true, none, some, List, [], ◌∷◌, ◌++◌, arith}
use muffin.Park.Slots.{empty, reserved, occupied, Slot, returned, missed, park_step, unpark_step}
use muffin.Park.Race.{Move, parks, unparks, others, step, run, reserved_world}
use muffin.Park.Handoff.{HandedOver, run-HandedOver}
use muffin.Park.Lot.{ParkingLot, reservation_of, reserve}
use muffin.Park.Reservations.{ReservesFirst, reserve-ReservesFirst}
use muffin.Park.Cells.{
  CellCall, puts, puts_reservation, takes, run_cell, all_stored, all_handed_out, held,
  run_cell_conserves,
}

-- The unparker comes between the parker's write and its exchange; another task claims the slot after.
abbrev raced : List (Move ℕ)
raced =
    parks
    ∷ unparks
    ∷ parks
    ∷ unparks
    ∷ parks
    ∷ parks
    ∷ unparks
    ∷ others (record { state = reserved; value = some 9 })
    ∷ []

raced_outcome :
    let w = run (reserved_world none 7) raced in
    (w.parker ≡ returned 7) × (w.unparker ≡ missed) × (w.reused ≡ true)
unfolding run step park_step unpark_step
raced_outcome = (refl, refl, refl)

run-HandedOver_example :
    let w = run (reserved_world none 7) raced in HandedOver 7 w.parker w.unparker
run-HandedOver_example = run-HandedOver none 7 raced (omega arith) (omega arith)

raced_reused : (run (reserved_world none 7) raced).reused ≡ true
unfolding run step park_step unpark_step
raced_reused = refl

-- A lot with one taken slot.
abbrev used_lot : ParkingLot ℕ
used_lot = record {
  head = record { state = occupied; value = some 3 } ∷ record { state = empty; value = none } ∷ [];
  chain = [];
}

reserve-ReservesFirst_example : ReservesFirst used_lot (reserve used_lot)
reserve-ReservesFirst_example = reserve-ReservesFirst used_lot

abbrev cell_calls : List CellCall
cell_calls =
    puts (reservation_of 0 4)
    ∷ puts_reservation (reservation_of 0 5)
    ∷ takes
    ∷ takes
    ∷ puts (reservation_of 1 0)
    ∷ []

run_cell_conserves_example :
    held none ++ all_stored none cell_calls
    ≡ all_handed_out none cell_calls ++ held (run_cell none cell_calls)
run_cell_conserves_example = run_cell_conserves none cell_calls

abbrev waiting_slot : Slot ℕ
waiting_slot = record { state = occupied; value = some 5 }
