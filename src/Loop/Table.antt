-- ===== src/Loop/Table.antt =====
-- The handler table of tornado/IOLoop.cpp.
use simplesvr.Prelude.{
  ℕ, zero, suc, ◌+◌, ◌≡◌, ◌<◌, refl, true, false, List, [], ◌∷◌, Option, some, arith, if◌then◌else◌,
  length,
}
use simplesvr.Prelude.Int.{ℤ, negsuc}
use simplesvr.Stream.{Events, union, error_event}
use simplesvr.TimeoutQueue.MultiIndex.{Container}
use simplesvr.Loop.{
  Slot, free_slot, set_slot, slot_at, Loop, register_fd, in_range, add_handler, remove_handler,
}

-- How many handlers the table holds.
abbrev pub count_taken : List Slot → ℕ
count_taken [] = 0
count_taken (s ∷ ss) = if s.taken then suc (count_taken ss) else count_taken ss

count_taken-set_slot :
    (ss : List Slot) (fd : ℕ) (cb : Option ℕ)
    → fd < length ss
    → (slot_at ss fd).taken ≡ false
    → count_taken (set_slot ss fd (record { taken = true; cb = cb })) ≡ count_taken ss + 1
count_taken-set_slot [] fd cb h e = absurd (omega arith)
count_taken-set_slot (s ∷ ss) zero cb h e = ground arith
count_taken-set_slot (s ∷ ss) (suc fd) cb h e = ground (arith, count_taken-set_slot ss fd cb)

count_taken-free_slot :
    (ss : List Slot) (fd : ℕ)
    → (slot_at ss fd).taken ≡ true
    → count_taken (set_slot ss fd free_slot) + 1 ≡ count_taken ss
count_taken-free_slot [] fd e = absurd (ground arith)
count_taken-free_slot (s ∷ ss) zero e = ground arith
count_taken-free_slot (s ∷ ss) (suc fd) e = ground (arith, count_taken-free_slot ss fd)

pub length-set_slot : (ss : List Slot) (fd : ℕ) (s : Slot) → length (set_slot ss fd s) ≡ length ss
length-set_slot [] fd s = refl
length-set_slot (x ∷ ss) zero s = refl
length-set_slot (x ∷ ss) (suc fd) s = omega (arith, length-set_slot ss fd s)

pub slot_at-set_slot :
    (ss : List Slot) (fd : ℕ) (s : Slot) → fd < length ss → slot_at (set_slot ss fd s) fd ≡ s
slot_at-set_slot [] fd s h = absurd (omega arith)
slot_at-set_slot (x ∷ ss) zero s h = refl
slot_at-set_slot (x ∷ ss) (suc fd) s h = slot_at-set_slot ss fd s (omega arith)

module _ (c : Container) where
  -- `handle_num_` is the number of registered handlers.
  pub record IsCounted (l : Loop c) : Type 0 where
    pub counted : l.handle_num ≡ count_taken l.handlers

  -- `removeHandler` keeps `handle_num_` the number of handlers in the table, whatever `unregisterFD`
  -- returns.
  pub remove_handler-IsCounted :
      (fd : ℕ) (result : ℤ) (l : Loop c) → IsCounted l → IsCounted (remove_handler c fd result l).1
  unfolding remove_handler
  remove_handler-IsCounted fd result l v = ground (arith, count_taken-free_slot l.handlers fd)

  -- Where `addHandler` fails no assertion it keeps `handle_num_` the number of handlers in the
  -- table, whatever `registerFD` returns.
  pub add_handler-IsCounted :
      (fd : ℕ) (cb : Option ℕ) (events : Events) (result : ℤ) (l : Loop c) {r : ℤ × Loop c}
      → IsCounted l
      → add_handler c fd cb events result l ≡ some r
      → IsCounted r.1
  unfolding add_handler
  add_handler-IsCounted fd cb events result l v e =
      ground (arith, count_taken-set_slot l.handlers fd cb)

  -- The loop with one more handler.
  abbrev pub added : ℕ → Option ℕ → Events → Loop c → Loop c
  added fd cb events l = record l {
    handle_num = l.handle_num + 1;
    handlers = set_slot l.handlers fd (record { taken = true; cb = cb });
    controls = register_fd fd (union events error_event) ∷ l.controls;
  }

  pub add_handler-added :
      (fd : ℕ) (cb : Option ℕ) (events : Events) (result : ℤ) (l : Loop c)
      → in_range c fd l ≡ true
      → (slot_at l.handlers fd).taken ≡ false
      → add_handler c fd cb events result l ≡ some (result, added fd cb events l)
  unfolding add_handler
  add_handler-added fd cb events result l r f = ground arith

  pub add_handler-outside :
      (fd : ℕ) (cb : Option ℕ) (events : Events) (result : ℤ) (l : Loop c)
      → in_range c fd l ≡ false
      → add_handler c fd cb events result l ≡ some (negsuc 0, l)
  unfolding add_handler
  add_handler-outside fd cb events result l r = ground arith

  pub slot_at-added :
      (fd : ℕ) (cb : Option ℕ) (events : Events) (l : Loop c)
      → in_range c fd l ≡ true
      → slot_at (added fd cb events l).handlers fd ≡ record { taken = true; cb = cb }
  slot_at-added fd cb events l r =
      slot_at-set_slot l.handlers fd (record { taken = true; cb = cb }) (ground arith)
