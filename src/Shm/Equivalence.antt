-- ===== src/Shm/Equivalence.antt =====
-- The timer queue of tornado/shm/container.hpp against the one of tornado/TimeoutQueue.cpp.
use simplesvr.Prelude.{
  ℕ, ◌+◌, ◌^◌, ◌≡◌, ◌<◌, ◌∙◌, refl, ap, ap₂, sym, Bool, false, List, [], ◌∷◌, map, length, arith,
}
use simplesvr.TimeoutQueue
use simplesvr.TimeoutQueue.{first_expiration, fresh_id}
use simplesvr.TimeoutQueue.MultiIndex.{
  Event, Index, Container, has_id, insert_sorted, without, due, later,
}
use simplesvr.TimeoutQueue.Timers.{IsIssued, IsValid, add_lem, erase_lem}
use simplesvr.Shm.Stripped.{
  strip, strip-insert_sorted, strip-without, strip-due, strip-later, has_id-strip, first_item-strip,
  later-All, later-IsSorted, later-IsUnique,
}
use simplesvr.Shm.Timers
use simplesvr.Shm.Timers.{Item, TimerQueue, fresh_timer_id, first_item, get_expiration_timer}

-- What a client of either queue does: the timers that expire run no callback.
pub data Op : Type 0 where
  adds : ℕ → ℕ → ℕ → Op
  erases expires : ℕ → Op

-- An identifier, whether a timer was there, or the next time of expiration and what has expired.
pub data Reply : Type 0 where
  added : ℕ → Reply
  erased : Bool → Reply
  expired : ℕ → List Item → Reply

module _ (c : Container) (d : Index (Unit {0})) where
  unfoldable pub run_local : List Op → TimeoutQueue.Queue c → List Reply
  run_local [] q = []
  run_local (adds now delay callback ∷ ops) q =
      let (id, q') = TimeoutQueue.add c now delay callback q in added id ∷ run_local ops q'
  run_local (erases id ∷ ops) q =
      let (found, q') = TimeoutQueue.erase c id q in erased found ∷ run_local ops q'
  run_local (expires now ∷ ops) q =
      let (ran, q') = TimeoutQueue.run_pass c (λ callback id time q'. q') now q in
      expired (TimeoutQueue.next_expiration c q') (map strip ran) ∷ run_local ops q'

  unfoldable pub run_shared : List Op → TimerQueue d → List Reply
  run_shared [] q = []
  run_shared (adds now delay callback ∷ ops) q =
      let (id, q') = Timers.add d (now + delay) q in added id ∷ run_shared ops q'
  run_shared (erases id ∷ ops) q =
      let (found, q') = Timers.erase d id q in erased found ∷ run_shared ops q'
  run_shared (expires now ∷ ops) q =
      let (next, items, q') = get_expiration_timer d now [] q in
      expired next items ∷ run_shared ops q'

  -- The same timers and the same next identifier.
  pub record IsSame (p : TimeoutQueue.Queue c) (q : TimerQueue d) : Type 0 where
    pub timers : d.events q.timers ≡ map strip (c.events p.timeouts)
    pub next_id : q.next_id ≡ p.next_id

  call_all-nothing :
      (now : ℕ) (es : List Event) (q : TimeoutQueue.Queue c)
      → TimeoutQueue.call_all c (λ callback id time q'. q') now es q ≡ q
  unfolding TimeoutQueue.call_all
  call_all-nothing now [] q = refl
  call_all-nothing now (e ∷ es) q = call_all-nothing now es q

  next_id-add :
      (now delay callback : ℕ) (p : TimeoutQueue.Queue c)
      → IsValid c p
      → p.next_id + 1 < 2 ^ 32
      → (TimeoutQueue.add c now delay callback p).1.next_id ≡ p.next_id + 1
  unfolding TimeoutQueue.add
  next_id-add now delay callback p v small = ground (arith, v.started)

  next_id-erase :
      (id : ℕ) (p : TimeoutQueue.Queue c) → (TimeoutQueue.erase c id p).1.next_id ≡ p.next_id
  unfolding TimeoutQueue.erase
  next_id-erase id p = refl

  next_id-run_pass :
      (now : ℕ) (p : TimeoutQueue.Queue c)
      → (TimeoutQueue.run_pass c (λ callback id time q'. q') now p).1.next_id ≡ p.next_id
  unfolding TimeoutQueue.run_pass
  next_id-run_pass now p =
      ap (λ t. t.next_id)
        (call_all-nothing now (c.take_until now p.timeouts).0
          (record p { timeouts = (c.take_until now p.timeouts).1 }))

  adds-IsSame :
      (now delay callback : ℕ) (p : TimeoutQueue.Queue c) (q : TimerQueue d)
      → IsValid c p
      → p.next_id + 1 < 2 ^ 32
      → IsSame p q
      → ((TimeoutQueue.add c now delay callback p).0 ≡ (Timers.add d (now + delay) q).0)
        × IsSame (TimeoutQueue.add c now delay callback p).1 (Timers.add d (now + delay) q).1
  unfolding TimeoutQueue.add Timers.add
  adds-IsSame now delay callback p q v small same =
      let es = c.events p.timeouts in
      let (new, placed, _) = add_lem c now delay callback p v (omega arith) in
      let ids : fresh_timer_id d q ≡ fresh_id c p = ground (arith, same.next_id) in
      let issued : fresh_id c p ≡ p.next_id = ground (arith, v.started) in
      let item : ℕ → Item = λ i. record { id = i; expiration = now + delay; callback = tt } in
      let unused : has_id (fresh_timer_id d q) (d.events q.timers) ≡ false =
        ap (has_id (fresh_timer_id d q)) same.timers
        ∙ has_id-strip (fresh_timer_id d q) es
        ∙ ap (λ i. has_id i es) ids
        ∙ new in
      (
        sym ids,
        record {
          timers =
              d.insert_new (item (fresh_timer_id d q)) q.timers unused
              ∙ ap₂ (λ i l. insert_sorted (item i) l) ids same.timers
              ∙ sym (
                  strip-insert_sorted
                    (record { id = fresh_id c p; expiration = now + delay; callback = callback })
                    es)
              ∙ ap (map strip) (sym placed);
          next_id = omega (arith, ids, issued);
        },
      )

  erases-IsSame :
      (id : ℕ) (p : TimeoutQueue.Queue c) (q : TimerQueue d)
      → IsSame p q
      → ((TimeoutQueue.erase c id p).0 ≡ (Timers.erase d id q).0)
        × IsSame (TimeoutQueue.erase c id p).1 (Timers.erase d id q).1
  unfolding TimeoutQueue.erase Timers.erase
  erases-IsSame id p q same =
      let e = same.timers in
      (
        c.erased id p.timeouts
            ∙ sym (has_id-strip id (c.events p.timeouts))
            ∙ ap (has_id id) (sym e)
            ∙ sym (d.erased id q.timers),
        record {
          timers =
              d.events-erase_id id q.timers
              ∙ ap (without id) e
              ∙ sym (strip-without id (c.events p.timeouts))
              ∙ ap (map strip) (sym (c.events-erase_id id p.timeouts));
          next_id = same.next_id;
        },
      )

  expires-IsSame :
      (now : ℕ) (p : TimeoutQueue.Queue c) (q : TimerQueue d)
      → IsSame p q
      → let (ran, p') = TimeoutQueue.run_pass c (λ callback id time q'. q') now p in
        let (next, items, q') = get_expiration_timer d now [] q in
        (TimeoutQueue.next_expiration c p' ≡ next) × (map strip ran ≡ items) × IsSame p' q'
  unfolding get_expiration_timer TimeoutQueue.run_pass TimeoutQueue.next_expiration
  expires-IsSame now p q same =
      let es = c.events p.timeouts in
      let stays : d.events (d.take_until now q.timers).1
          ≡ map strip (c.events (c.take_until now p.timeouts).1) =
        d.events-take_until now q.timers
        ∙ ap (later now) same.timers
        ∙ sym (strip-later now es)
        ∙ ap (map strip) (sym (c.events-take_until now p.timeouts)) in
      let left = record p { timeouts = (c.take_until now p.timeouts).1 } in
      let quiet = call_all-nothing now (c.take_until now p.timeouts).0 left in
      let goes : (d.take_until now q.timers).0 ≡ map strip (c.take_until now p.timeouts).0 =
        d.taken now q.timers
        ∙ ap (due now) same.timers
        ∙ sym (strip-due now es)
        ∙ ap (map strip) (sym (c.taken now p.timeouts)) in
      (
        ap (λ t. first_expiration (c.events t.timeouts)) quiet
            ∙ sym (first_item-strip (c.events left.timeouts))
            ∙ ap first_item (sym stays),
        sym goes,
        record {
          timers = stays ∙ ap (λ t. map strip (c.events t.timeouts)) (sym quiet);
          next_id = same.next_id ∙ ap (λ t. t.next_id) (sym quiet);
        },
      )

  -- The pass that runs nothing leaves a valid queue.
  run_pass-IsValid :
      (now : ℕ) (p : TimeoutQueue.Queue c)
      → IsValid c p
      → IsValid c (TimeoutQueue.run_pass c (λ callback id time q'. q') now p).1
  unfolding TimeoutQueue.run_pass
  run_pass-IsValid now p v =
      let es = c.events p.timeouts in
      let left = record p { timeouts = (c.take_until now p.timeouts).1 } in
      let quiet = call_all-nothing now (c.take_until now p.timeouts).0 left in
      let e = c.events-take_until now p.timeouts in
      rw quiet (record {
        sorted = rw e (later-IsSorted now es v.sorted);
        unique = rw e (later-IsUnique now es v.unique);
        issued = rw e (later-All (IsIssued p.next_id) now es v.issued);
        started = v.started;
      })

  -- From the same timers and the same next identifier, on a valid queue, every sequence of
  -- additions, removals and expirations that does not use up the identifiers of 32 bits is answered
  -- alike by the timer queue in shared memory and by the one of the loop, whose callbacks do nothing
  -- here.
  pub run_same :
      (ops : List Op) (p : TimeoutQueue.Queue c) (q : TimerQueue d)
      → IsValid c p
      → p.next_id + length ops < 2 ^ 32
      → IsSame p q
      → run_local ops p ≡ run_shared ops q
  unfolding run_local run_shared
  run_same [] p q v small same = refl
  run_same (adds now delay callback ∷ ops) p q v small same =
      let (id, next) = adds-IsSame now delay callback p q v (omega arith) same in
      let (_, _, valid) = add_lem c now delay callback p v (omega arith) in
      ap₂ (λ i l. added i ∷ l) id
        (run_same ops _ _ valid (omega (arith, next_id-add now delay callback p v (omega arith)))
          next)
  run_same (erases id ∷ ops) p q v small same =
      let (found, next) = erases-IsSame id p q same in
      let (_, _, _, valid) = erase_lem c id p v in
      ap₂ (λ i l. erased i ∷ l) found
        (run_same ops _ _ valid (omega (arith, next_id-erase id p)) next)
  run_same (expires now ∷ ops) p q v small same =
      let (first, items, next) = expires-IsSame now p q same in
      let rest =
        run_same ops _ _ (run_pass-IsValid now p v) (omega (arith, next_id-run_pass now p)) next in
      ap₂ (λ k l. k ∷ l) (ap₂ expired first items) rest
