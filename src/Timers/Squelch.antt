-- ===== src/Timers/Squelch.antt =====
-- oxenmq/jobs.cpp: a squelched timer has at most one job queued or running.
use oxen_mq.Common.{
  ℕ, ◌≡◌, refl, sym, ap, ◌∙◌, Bool, true, false, none, some, List, [], ◌∷◌, ℤ, is_minus_one, find,
  erase, update, ◌==◌, length, arith,
}
use oxen_mq.Pool.{Callback, Pool}
use oxen_mq.Pool.Jobs.{adopt, queue_job}
use oxen_mq.Timers.{TimerData, Timers, set_running, queue_timer, queue_timer_job, timer_done}

module _ {V : Type 0} where
  find-erase_ne :
      (a b : ℕ) (es : List (ℕ × V))
      → (a == b) ≡ false
      → find ◌==◌ b (erase ◌==◌ a es) ≡ find ◌==◌ b es
  find-erase_ne a b [] h = refl
  find-erase_ne a b (e ∷ es) h = ground (arith, find-erase_ne a b es)

  find-erase_self : (a : ℕ) (es : List (ℕ × V)) → find ◌==◌ a (erase ◌==◌ a es) ≡ none
  find-erase_self a [] = refl
  find-erase_self a (e ∷ es) = ground (arith, find-erase_self a es)

  find-update :
      (a : ℕ) (f : V → V) (es : List (ℕ × V)) (v : V)
      → find ◌==◌ a es ≡ some v
      → find ◌==◌ a (update ◌==◌ a f es) ≡ some (f v)
  find-update a f [] v h = absurd (cc)
  find-update a f (e ∷ es) v h = ground (arith, find-update a f es v)

module _ {B : Type 0} (make : Bool → Callback → ℤ → B) where
  fires :
      (id : ℕ) (d : TimerData) (t : Timers) (p : Pool B)
      → find ◌==◌ id t.timer_jobs ≡ some d
      → d.squelch ≡ true
      → d.running ≡ false
      → is_minus_one d.thread ≡ false
      → queue_timer_job make id t p ≡ (
        set_running true id t,
        queue_job d.thread (length p.batches, some 0) (adopt (make true d.function d.thread) p).0,
      )
  unfolding queue_timer_job queue_timer adopt
  fires id d t p h s r w = rw (h, s, r, w, queue_timer_job, queue_timer) refl

  blocked :
      (id : ℕ) (d : TimerData) (t : Timers) (p : Pool B)
      → find ◌==◌ id t.timer_jobs ≡ some d
      → d.squelch ≡ true
      → d.running ≡ true
      → queue_timer_job make id t p ≡ (t, p)
  unfolding queue_timer_job
  blocked id d t p h s r = rw (h, s, r, queue_timer_job) refl

  -- One firing of a timer with a squelch flag that runs in a worker: the object is new and queued, and
  -- firing again before its completion function has run changes nothing.
  pub queue_timer_job-squelched :
      (id : ℕ) (d : TimerData) (t : Timers) (p : Pool B)
      → find ◌==◌ id t.timer_jobs ≡ some d
      → d.squelch ≡ true
      → d.running ≡ false
      → is_minus_one d.thread ≡ false
      → (u : Timers) × (q : Pool B) × (queue_timer_job make id t p ≡ (u, q))
        × (q
            ≡ queue_job d.thread
                (length p.batches, some 0)
                (adopt (make true d.function d.thread) p).0)
        × (queue_timer_job make id u q ≡ (u, q))
        × (find ◌==◌ id (timer_done id u).timer_jobs ≡ some d)
  unfolding timer_done
  queue_timer_job-squelched id d t p h s r w =
      let u = set_running true id t in
      let fired =
        find-update id (λ (x : TimerData). record x { running = true }) t.timer_jobs d h in
      let done =
        find-update id (λ (x : TimerData). record x { running = false }) u.timer_jobs
          (record d { running = true }) fired in
      (
        u,
        queue_job d.thread (length p.batches, some 0) (adopt (make true d.function d.thread) p).0,
        fires id d t p h s r w,
        refl,
        blocked id (record d { running = true }) u _ fired s refl,
        done ∙ ap (λ (b : Bool). some (record d { running = b })) (sym r),
      )
