-- ===== src/Machine/Lock/Tests.antt =====
-- The lock of a thread on a small kernel.
use duma.Prelude.{ℕ, suc, ◌≢◌, none, some, ◌≡◌, refl, true}
use duma.Machine.Sample.{Kernel, boot}
use duma.Machine.State.{State, initial_state}
use duma.Machine.Lock.Threads.{
  System, at, initial_system, rest, compare, won, named, try_won, try_lost, name, count, Reach,
  start, later, pick,
}
use duma.Machine.Lock.Threads.Exclusion.{has_lock, exclusion}
use duma.Machine.Lock.Threads.Release.{Released, unlock-Released}

abbrev idle : State Kernel
idle = initial_state 8 boot (λ _. 0)

-- Thread 0 takes the lock, and thread 1 has tried.
abbrev one_won : System
one_won = record {
  shared = record { holder = some 0; mutex_id = 0; lock_nr = 0 };
  place = at initial_system.place 0 (won 0);
}

abbrev one_named : System
one_named = record {
  shared = record { holder = some 0; mutex_id = 1; lock_nr = 0 };
  place = at one_won.place 0 (named 0);
}

abbrev one_inside : System
one_inside = record {
  shared = record { holder = some 0; mutex_id = 1; lock_nr = 1 };
  place = at one_named.place 0 (rest 1);
}

abbrev other_tried : System
other_tried = record one_inside { place = at one_inside.place 1 (compare 0) }

is_held : one_inside.shared.holder ≢ none
is_held e = cc

other_tried-Reach : Reach other_tried
other_tried-Reach =
    let r1 : Reach one_won = later start (pick 0 (try_won refl)) in
    let r2 : Reach one_named = later r1 (pick 0 name) in
    let r3 : Reach one_inside = later r2 (pick 0 count) in later r3 (pick 1 (try_lost is_held))

exclusion_example :
    ((has_lock (other_tried.place 1) ≡ true) → ◌≡◌ {A = ℕ} 0 1)
    × ((n : ℕ) → other_tried.place 0 ≡ rest (suc n) → other_tried.shared.lock_nr ≡ suc n)
exclusion_example = exclusion 0 1 other_tried-Reach refl

unlock-Released_example : Released 0 other_tried
unlock-Released_example = unlock-Released 0 0 other_tried-Reach refl
