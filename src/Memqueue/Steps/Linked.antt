-- ===== src/Memqueue/Steps/Linked.antt =====
-- Every step of src/memqueue.c leaves the binders linked.

use memqueue.Base.{ℕ, ◌≡◌, refl, ap, ◌∙◌, Option, some, Text, ok, >>=-eq-ok, ok-injective, arith}
use memqueue.Hash.{h_get}
use memqueue.Memqueue.Types.{Ptr, Ins, RbTrees}
use memqueue.Memqueue.Refs.{memqueue_release}
use memqueue.Memqueue.Cleaner.{expire_msgs_loop}
use memqueue.Memqueue.Respond.{Reply, memqueue_respond, deleted}
use memqueue.Memqueue.Handlers.{on_queue_delete}
use memqueue.Memqueue.Links.{Links}
use memqueue.Memqueue.Links.Kept.{
  SameBinders, SameBinders-trans, same-SameBinders, SameBinders-Links,
}
use memqueue.Memqueue.Links.Same.{
  msg_retain-SameBinders, enqueue_msgs-SameBinders, msg_release-SameBinders, flush-SameBinders,
  release_queue-SameBinders, resched-SameBinders, clear-SameBinders, unchanged,
}
use memqueue.Memqueue.Links.Made.{create-SameBinders, post-SameBinders, connect-Links, bind-Links}
use memqueue.Memqueue.Links.Unbound.{unbind-Links}
use memqueue.Memqueue.Steps.{
  Step, create, post, remove, retain, release, connect, bind, join, fetch, unbind, flush, resched,
  expire, expire_msg, erase_node, expire_queue,
}
use memqueue.Memqueue.Steps.Announced.{refresh-SameBinders}
use memqueue.Memqueue.Steps.Expired.{expire_msgs_loop-keeps}

-- A DELETE that returned gave back a reference of the queue.
pub delete_release :
    (id : Text) (p : Ptr) (r : Reply) (s s' : Ins)
    → h_get s.queue_store id ≡ some p
    → on_queue_delete id s ≡ ok (r, s')
    → memqueue_release p s ≡ ok s'
unfolding on_queue_delete
delete_release id p r s s' named e =
    let (s₁, run, done) =
      >>=-eq-ok (memqueue_release p s) (λ x. ok (memqueue_respond deleted, x))
        (rw (on_queue_delete, named) at e) in
    run ∙ ap (λ (x : Reply × Ins). ok x.1) (ok-injective done)

module _ (rb : RbTrees) where
  walk :
      (f now : ℕ) (at : Option Ptr) (s s' : Ins)
      → expire_msgs_loop rb f now at s ≡ ok s'
      → SameBinders s s'
  walk f now at s s' e =
      expire_msgs_loop-keeps (SameBinders s)
        (λ t x k. SameBinders-trans k (same-SameBinders {s = x} _ refl refl (omega arith)))
        (λ r x y run k. SameBinders-trans k (msg_release-SameBinders r x y run)) rb f now at s s' e
        (unchanged s)

  pub Step-Links :
      {base : Ptr → ℕ} {s : Ins} {base' : Ptr → ℕ} {s' : Ins}
      → Step rb base s base' s'
      → Links s
      → Links s'
  Step-Links {s = s} {s' = s'} (create now a id absent e) l =
      SameBinders-Links s' (create-SameBinders rb now a id s s' e) l
  Step-Links {s = s} {s' = s'} (post now p q msecs body at room new e) l =
      SameBinders-Links s' (post-SameBinders rb now p q msecs body s s' at room e) l
  Step-Links {s = s} {s' = s'} (remove id p r named n e) l =
      SameBinders-Links s' (release_queue-SameBinders p s s' (delete_release id p r s s' named e)) l
  Step-Links {s' = s'} (retain r e) l = SameBinders-Links s' (msg_retain-SameBinders r _ _ e) l
  Step-Links {s' = s'} (release r e) l = SameBinders-Links s' (msg_release-SameBinders r _ _ e) l
  Step-Links (connect timeout) l = connect-Links timeout l
  Step-Links (bind p c rev include_consumers e) l = bind-Links p c rev include_consumers _ _ e l
  Step-Links {s' = s'} (join now p q id at n room unused e) l =
      SameBinders-Links s' (refresh-SameBinders rb now p q id _ _ at room unused e) l
  Step-Links {s' = s'} (fetch c p rev latest n client e) l =
      SameBinders-Links s' (enqueue_msgs-SameBinders c p rev latest n _ _ e) l
  Step-Links (unbind c e) l = unbind-Links c _ _ e l
  Step-Links {s' = s'} (flush c e) l = SameBinders-Links s' (flush-SameBinders c _ _ e) l
  Step-Links {s' = s'} (resched now p e) l =
      SameBinders-Links s' (resched-SameBinders rb now p _ _ e) l
  Step-Links {s = s} {s' = s'} (expire f now at e) l = SameBinders-Links s' (walk f now at s s' e) l
  Step-Links {s = s} {s' = s'} (expire_msg i r rest e) l =
      SameBinders-Links s'
        (SameBinders-trans (same-SameBinders {s = s} _ refl refl (omega arith))
          (msg_release-SameBinders r _ s' e))
        l
  Step-Links {s = s} {s' = s'} (erase_node i) l =
      SameBinders-Links s' (same-SameBinders {s = s} s' refl refl (omega arith)) l
  Step-Links {s = s} (expire_queue {s' = s₁} i p rest n e) l =
      SameBinders-Links _
        (SameBinders-trans (same-SameBinders {s = s} _ refl refl (omega arith))
          (SameBinders-trans (release_queue-SameBinders p _ s₁ e) (clear-SameBinders p s₁)))
        l
