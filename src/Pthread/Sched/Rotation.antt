-- ===== src/Pthread/Sched/Rotation.antt =====
-- The ready queue under a sequence of ticks or yields: first in, first out.
use mathlib.Core.List.{append_assoc}
use osdesignasst.Prelude.{
  ℕ, zero, suc, subst, Outcome, ok, some, List, [], ◌∷◌, ◌++◌, length, Returns, ◌>>=◌,
}
use osdesignasst.Pthread.State.{Pthread, Memory}
use osdesignasst.Pthread.Sched.{timer_handler}
use osdesignasst.Pthread.Sched.Switch.{
  Looks, switched, switched-Looks, schedule-switch, schedule-idle,
}

module _ {Vm : Type 0} (memory : Memory Vm) where
  -- So many ticks of the timer, with nothing between them.
  unfoldable pub ticks : ℕ → Pthread Vm → Outcome (Pthread Vm)
  ticks zero s = ok s
  ticks (suc n) s = timer_handler memory s >>= ticks n

  -- The thread behind `before` in the ready queue runs after one tick more than there are threads
  -- before it; then those threads stand, in their order, behind the thread that ran at first.
  pub ticks-reach :
      (before after : List ℕ) (s : Pthread Vm) {c t : ℕ} {ws : List ℕ}
      → Looks s (some c) (before ++ t ∷ after) ws
      → Returns (ticks (suc (length before)) s) (λ s'. Looks s' (some t) (after ++ c ∷ before) ws)
  unfolding ticks timer_handler
  ticks-reach [] after s {c} {t} {ws} l = (
    switched memory c t (after ++ c ∷ []) ws s,
    rw (schedule-switch memory s l),
    switched-Looks memory c t (after ++ c ∷ []) ws s,
  )
  ticks-reach (b ∷ bs) after s {c} {t} {ws} l =
      let next = switched memory c b ((bs ++ t ∷ after) ++ c ∷ []) ws s in
      let looks = switched-Looks memory c b ((bs ++ t ∷ after) ++ c ∷ []) ws s in
      let (s', runs, l') =
        ticks-reach bs (after ++ c ∷ []) next
          (subst (λ q. Looks next (some b) q ws) (append_assoc bs (t ∷ after) (c ∷ [])) looks) in
      (
        s',
        rw (schedule-switch memory s l) runs,
        subst (λ q. Looks s' (some t) q ws) (append_assoc after (c ∷ []) (b ∷ bs)) l',
      )

  -- After one tick for each thread, the current one included, everything stands as before.
  pub ticks-period :
      (rs : List ℕ) (s : Pthread Vm) {c : ℕ} {ws : List ℕ}
      → Looks s (some c) rs ws
      → Returns (ticks (suc (length rs)) s) (λ s'. Looks s' (some c) rs ws)
  unfolding ticks timer_handler
  ticks-period [] s l = (s, rw (schedule-idle memory s l.ready), l)
  ticks-period (r ∷ rest) s {c} {ws} l =
      let next = switched memory c r (rest ++ c ∷ []) ws s in
      let (s', runs, l') =
        ticks-reach rest [] next (switched-Looks memory c r (rest ++ c ∷ []) ws s) in
      (s', rw (schedule-switch memory s l) runs, l')
