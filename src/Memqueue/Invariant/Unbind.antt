-- ===== src/Memqueue/Invariant/Unbind.antt =====
-- `memqueue_unbind_all` of src/memqueue.c after `memqueue_bind`.
use memqueue.Base.{◌+◌, ◌≡◌, refl, ap, sym, ◌∙◌, [], ◌∷◌, some, ok, ◌>>=◌}
use memqueue.Base.Int.{ℤ}
use memqueue.Memqueue.Types.{Ptr, Queue, Binder, CliBinder, Ins, update, store_queue, store_cli}
use memqueue.Memqueue.Poll.{memqueue_bind, remove_binder, unbind_loop, memqueue_unbind_all}
use memqueue.Memqueue.Invariant.{==_refl, update-update, update_self}

module _ (p c : Ptr) (rev include_consumers : ℤ) (s : Ins) (q : Queue) (d : CliBinder)
    (at : s.queues p ≡ some q) (there : s.clis c ≡ some d) where
  abbrev binder : Binder
  binder = record {
    address = s.next_ptr;
    rev = rev;
    memqueue = p;
    cli_binder = c;
    include_consumers = include_consumers;
  }

  abbrev d' : CliBinder
  d' = record d { memqueues = binder ∷ d.memqueues }

  abbrev q' : Queue
  q' = record q { memqueue_binders = binder ∷ q.memqueue_binders }

  abbrev bare : CliBinder
  bare = record d { memqueues = [] }

  abbrev bound : Ins
  bound = record (store_queue p q' (store_cli c d' s)) { next_ptr = s.next_ptr + 1 }

  bind_run : memqueue_bind p c rev include_consumers s ≡ ok bound
  unfolding memqueue_bind
  bind_run = rw (there, at) refl

  unbind_starts :
      memqueue_unbind_all c bound ≡ unbind_loop (binder ∷ d.memqueues) (store_cli c bare bound)
  unfolding memqueue_unbind_all
  unbind_starts = rw (==_refl c) refl

  first_removed :
      unbind_loop (binder ∷ d.memqueues) (store_cli c bare bound)
      ≡ unbind_loop d.memqueues (store_queue p q (store_cli c bare bound))
  unfolding unbind_loop remove_binder
  first_removed = rw (unbind_loop, ==_refl p, remove_binder, ==_refl s.next_ptr) refl

  restored :
      store_queue p q (store_cli c bare bound)
      ≡ store_cli c bare (record s { next_ptr = s.next_ptr + 1 })
  restored =
      let queues : update (update s.queues p (some q')) p (some q) ≡ s.queues =
        update-update s.queues p (some q') (some q) ∙ sym (update_self s.queues p q at) in
      let clis = update-update s.clis c (some d') (some bare) in
      λ i. record s { queues = queues i; clis = clis i; next_ptr = s.next_ptr + 1 }

  unbind_before :
      memqueue_unbind_all c (record s { next_ptr = s.next_ptr + 1 })
      ≡ unbind_loop d.memqueues (store_cli c bare (record s { next_ptr = s.next_ptr + 1 }))
  unfolding memqueue_unbind_all
  unbind_before = rw there refl

  -- For a queue and a client that are there, the removal of all of the client's binders undoes a
  -- binding just before it: what it leaves is what it leaves without the binding, but for the address
  -- that the allocator hands out next.
  pub unbind_all-bind :
      (memqueue_bind p c rev include_consumers s >>= memqueue_unbind_all c)
      ≡ memqueue_unbind_all c (record s { next_ptr = s.next_ptr + 1 })
  unbind_all-bind =
      ap (λ r. r >>= memqueue_unbind_all c) bind_run
      ∙ unbind_starts
      ∙ first_removed
      ∙ ap (unbind_loop d.memqueues) restored
      ∙ sym unbind_before
