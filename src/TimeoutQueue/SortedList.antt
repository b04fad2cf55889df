-- ===== src/TimeoutQueue/SortedList.antt =====
-- A sorted list in place of the container of tornado/TimeoutQueue.h: it shows that what is asked of
-- the container can be had, and lets the queue run.
use simplesvr.Prelude.{◌≡◌, refl, true, false, List, [], if◌then◌else◌}
use simplesvr.TimeoutQueue.MultiIndex.{
  Entry, Index, Container, has_id, insert_sorted, without, due, later,
}

abbrev pub insert_once {ℓ} : {C : Type ℓ} → Entry C → List (Entry C) → List (Entry C)
insert_once e s = if has_id e.id s then s else insert_sorted e s

pub insert_once-new {ℓ} :
    {C : Type ℓ} (e : Entry C) (s : List (Entry C))
    → has_id e.id s ≡ false
    → insert_once e s ≡ insert_sorted e s
insert_once-new e s h = rw h

pub insert_once-old {ℓ} :
    {C : Type ℓ} (e : Entry C) (s : List (Entry C)) → has_id e.id s ≡ true → insert_once e s ≡ s
insert_once-old e s h = rw h

abbrev pub sorted_index : {C : Type 0} → Index C
sorted_index {C} = record {
  Set = List (Entry C);
  events = λ s. s;
  empty_set = [];
  insert = insert_once;
  erase_id = λ id s. (has_id id s, without id s);
  take_until = λ now s. (due now s, later now s);
  events-empty_set = refl;
  insert_new = insert_once-new;
  insert_old = insert_once-old;
  erased = λ id s. refl;
  events-erase_id = λ id s. refl;
  taken = λ now s. refl;
  events-take_until = λ now s. refl;
}

abbrev pub sorted_list : Container
sorted_list = sorted_index
