-- ===== src/Queue/Batch/Complete.antt =====
-- src/arvel/queue/batch.py: the end of a batch whose callbacks do not raise.
use arvel.Common.{ℕ, String, ◌≡◌, Bool, true, false, arith}
use arvel.Queue.Batch.{Options, World, Pc, returned, raised}
use arvel.Queue.Batch.Run.{System, Reach, start}
use arvel.Queue.Batch.Owner.{is_finished, Held, ThenSettled}
use arvel.Queue.Batch.Once.{Phase, open_, closed, start-IsSound, Reach-IsSound}
use arvel.Queue.Batch.Count.{waits, waiting_zero}
use arvel.Queue.Batch.Carry.{carries, is_raised, Carrier, Reach-Carrier}

-- The process has run to its end, by a return or by an exception.
abbrev pub has_ended : Pc → Bool
has_ended returned = true
has_ended raised = true
has_ended _ = false

ended-waits : (pc : Pc) → has_ended pc ≡ true → waits pc ≡ 0
ended-waits pc h = ground arith

ended-carries : (pc : Pc) → has_ended pc ≡ true → carries pc ≡ false
ended-carries pc h = ground arith

ended-Held :
    (o : Options) (w : World) (pc : Pc)
    → has_ended pc ≡ true
    → is_raised pc ≡ false
    → Held o w pc
    → (w.finalled ≡ o.finally_refs) × ThenSettled o w
ended-Held o w returned h r held = held
ended-Held o w raised h r held = cc
ended-Held o w _ h r held = cc

module _ (o : Options) (n : ℕ) (s : System) (ended : (i : ℕ) → has_ended (s.procs i) ≡ true) where
  all_ended :
      Carrier n s
      → Phase o s
      → (is_finished s.world ≡ true) × (s.world.finalled ≡ o.finally_refs) × ThenSettled o s.world
  all_ended c (open_ f t l idle) =
      let (i, h) = c.somebody (waiting_zero s.procs n (λ i. ended-waits (s.procs i) (ended i))) f in
      cc (h, ended-carries (s.procs i) (ended i))
  all_ended c (closed k f idle held) =
      let (l, t) = ended-Held o s.world (s.procs k) (ended k) (c.none_raised k) held in (f, l, t)

-- Where no callback raises: however the settlements of the `n` jobs, their failures and outside
-- cancellations interleave, when every process has ended the batch is finished, each `finally`
-- callback has run exactly once and in order, and the `then` callbacks have all run exactly once,
-- or none of them has and the batch is cancelled. An empty batch is the case `n = 0`.
pub batch_completes :
    (raises : String → Bool) (o : Options) (n : ℕ) (outcome : ℕ → Bool) {s : System}
    → ((r : String) → raises r ≡ false)
    → Reach raises o (start n outcome) s
    → ((i : ℕ) → has_ended (s.procs i) ≡ true)
    → (is_finished s.world ≡ true) × (s.world.finalled ≡ o.finally_refs) × ThenSettled o s.world
batch_completes raises o n outcome {s} quiet r ended =
    all_ended o n s ended (Reach-Carrier quiet n outcome r)
      (Reach-IsSound (start-IsSound o n outcome) r).phase
