-- ===== src/Engine/Frames/Laws.antt =====
-- What holds of the frame loop after any sequence of events.
use aetheldesk.Base.{
  ℕ, ◌+◌, ◌≤◌, ◌≡◌, ◌⊎◌, inl, inr, refl, Bool, true, false, ◌||◌, List, [], ◌∷◌, ◌++◌, arith, All,
  if_intro, subst, is_some, Bool-cases,
}
use aetheldesk.Engine.Frames.{
  Waiter, Presentation, resolves, first_frame, Resolved, Loop, Outcome, tick_throws, post_throws,
  shader_fails, drawn, wants_first_frame, stopped, resolve_all, report_fatal, destroy,
  after_next_stable_render, mark_content_ready, due, count_frame, render_loop, present, Event,
  frame, presents, context_lost, asks_stable, content_arrives, destroys, step, run, new_loop,
}

-- Once stopped, nothing waits, no frame is requested; the two callbacks are called once at most.
record Inv (e : Loop) : Type 0 where
  no_waiters : stopped e ≡ true → e.frame_waiters ≡ []
  no_presentations : stopped e ≡ true → e.presentations ≡ []
  no_frame : stopped e ≡ true → e.frame_requested ≡ false
  one_fatal : (e.fatal_calls ≤ 1) × (e.fatal_reported ≡ false → e.fatal_calls ≡ 0)

present-Inv :
    (ps : List Presentation) (e : Loop) → e.presentations ≡ ps → Inv e → Inv (present ps e)
unfolding present
present-Inv [] e q v = v
present-Inv (resolves id goal ∷ ps) e q v = record {
  no_waiters = ground arith;
  no_presentations = ground arith;
  no_frame = ground arith;
  one_fatal = ground arith;
}
present-Inv (first_frame ∷ ps) e q v = record {
  no_waiters = ground arith;
  no_presentations = ground arith;
  no_frame = ground arith;
  one_fatal = ground arith;
}

step-Inv : (x : Event) (e : Loop) → Inv e → Inv (step x e)
unfolding step
step-Inv (frame hidden outcome) e v = record {
  no_waiters = ground arith;
  no_presentations = ground arith;
  no_frame = ground arith;
  one_fatal = ground arith;
}
step-Inv presents e v = present-Inv e.presentations e refl v
step-Inv x e v = record {
  no_waiters = ground arith;
  no_presentations = ground arith;
  no_frame = ground arith;
  one_fatal = ground arith;
}

run-Inv : (xs : List Event) (e : Loop) → Inv e → Inv (run xs e)
unfolding run
run-Inv [] e v = v
run-Inv (x ∷ xs) e v = run-Inv xs (step x e) (step-Inv x e v)

new_loop-Inv : Inv new_loop
new_loop-Inv = record {
  no_waiters = λ h. cc;
  no_presentations = λ h. cc;
  no_frame = λ h. cc;
  one_fatal = omega arith;
}

-- Once the loop has stopped, by a fatal error or by `destroy`, no caller waits for a frame, nothing
-- waits for a display turn and no animation frame is requested, whatever happened before and after.
pub run-stopped :
    (xs : List Event)
    → stopped (run xs new_loop) ≡ true
    → let e = run xs new_loop in
      (e.frame_waiters ≡ []) × (e.presentations ≡ []) × (e.frame_requested ≡ false)
run-stopped xs h =
    let v = run-Inv xs new_loop new_loop-Inv in (v.no_waiters h, v.no_presentations h, v.no_frame h)

-- `goal` is the first frame after the one on display when the promise was made.
abbrev pub IsKept : Resolved → Type 0
IsKept r = (r.value ≡ false) ⊎ (r.goal ≤ r.serial)

abbrev Kept : Resolved → Type 0
Kept r = r.value ≡ true → r.goal ≤ r.serial

abbrev Reached : ℕ → Presentation → Type 0
Reached serial (resolves id goal) = goal ≤ serial
Reached serial first_frame = Unit

record Honest (e : Loop) : Type 0 where
  kept : All Kept e.resolved
  reached : All (Reached e.successful_frame_serial) e.presentations

resolve_all-Kept :
    (serial : ℕ) (ws : List Waiter) (rs : List Resolved)
    → All Kept rs
    → All Kept (resolve_all false serial ws rs)
unfolding resolve_all
resolve_all-Kept serial [] rs h = h
resolve_all-Kept serial (w ∷ ws) rs h = resolve_all-Kept serial ws _ ((λ e. cc), h)

due-Reached : (serial : ℕ) (ws : List Waiter) → All (Reached serial) (due serial ws)
unfolding due
due-Reached serial [] = tt
due-Reached serial (w ∷ ws) = ground (arith, due-Reached serial ws)

Reached-later :
    (n m : ℕ) (ps qs : List Presentation)
    → n ≤ m
    → All (Reached n) ps
    → All (Reached m) qs
    → All (Reached m) (ps ++ qs)
Reached-later n m [] qs l h k = k
Reached-later n m (resolves id goal ∷ ps) qs l h k = (omega arith, Reached-later n m ps qs l h.1 k)
Reached-later n m (first_frame ∷ ps) qs l h k = (tt, Reached-later n m ps qs l h.1 k)

fatal-Honest : (e : Loop) → Honest e → Honest (report_fatal e)
unfolding report_fatal
fatal-Honest e v =
    if_intro Honest (e.fatal_reported || e.destroyed) (λ _. v)
      λ _. record {
        kept = resolve_all-Kept e.successful_frame_serial e.frame_waiters e.resolved v.kept;
        reached = tt;
      }

destroy-Honest : (e : Loop) → Honest e → Honest (destroy e)
unfolding destroy
destroy-Honest e v =
    if_intro Honest e.destroyed (λ _. v)
      λ _. record {
        kept = resolve_all-Kept e.successful_frame_serial e.frame_waiters e.resolved v.kept;
        reached = tt;
      }

ask-Honest : (e : Loop) → Honest e → Honest (after_next_stable_render e)
unfolding after_next_stable_render
ask-Honest e v =
    if_intro Honest (stopped e) (λ _. record { kept = ((λ h. cc), v.kept); reached = v.reached })
      λ _. record { kept = v.kept; reached = v.reached }

count-Honest : (e : Loop) → Honest e → Honest (count_frame e)
unfolding count_frame
count-Honest e v =
    let serial : ℕ = e.successful_frame_serial + 1 in
    let queued : All (Reached serial) (e.presentations ++ due serial e.frame_waiters) =
      Reached-later e.successful_frame_serial serial e.presentations _ (omega arith) v.reached
        (due-Reached serial e.frame_waiters) in
    record {
      kept = v.kept;
      reached =
          if_intro (All (Reached serial)) (wants_first_frame serial e)
            (λ _. Reached-later serial serial _ (first_frame ∷ []) (omega arith) queued (tt, tt))
            λ _. queued;
    }

present-Honest :
    (ps : List Presentation) (e : Loop) → e.presentations ≡ ps → Honest e → Honest (present ps e)
unfolding present
present-Honest [] e q v = v
present-Honest (resolves id goal ∷ ps) e q v =
    let r : All (Reached e.successful_frame_serial) (resolves id goal ∷ ps) =
      subst (All (Reached e.successful_frame_serial)) q v.reached in
    if_intro Honest (stopped e) (λ _. record { kept = v.kept; reached = r.1 })
      λ _. record { kept = ((λ _. r.0), v.kept); reached = r.1 }
present-Honest (first_frame ∷ ps) e q v =
    let r : All (Reached e.successful_frame_serial) (first_frame ∷ ps) =
      subst (All (Reached e.successful_frame_serial)) q v.reached in
    if_intro Honest (stopped e) (λ _. record { kept = v.kept; reached = r.1 })
      λ _. record { kept = v.kept; reached = r.1 }

loop-Honest : (hidden : Bool) (o : Outcome) (e : Loop) → Honest e → Honest (render_loop hidden o e)
unfolding render_loop
loop-Honest hidden o e v =
    if_intro Honest (stopped e) (λ _. v) λ _. if_intro Honest hidden (λ _. same) λ _. ended o
  where
    running : Loop
    running = record e { frame_requested = true }

    same : Honest running
    same = record { kept = v.kept; reached = v.reached }

    ended :
        (o : Outcome)
        → Honest (elim o [
          | tick_throws ↦ report_fatal running
          | post_throws ↦ report_fatal running
          | shader_fails ↦ report_fatal running
          | drawn ↦ count_frame running
        ])
    ended tick_throws = fatal-Honest running same
    ended post_throws = fatal-Honest running same
    ended shader_fails = fatal-Honest running same
    ended drawn = count-Honest running same

step-Honest : (x : Event) (e : Loop) → Honest e → Honest (step x e)
unfolding step mark_content_ready
step-Honest (frame hidden outcome) e v = loop-Honest hidden outcome e v
step-Honest presents e v = present-Honest e.presentations e refl v
step-Honest context_lost e v = fatal-Honest e v
step-Honest asks_stable e v = ask-Honest e v
step-Honest content_arrives e v =
    if_intro Honest (is_some e.content_ready) (λ _. v)
      λ _. record { kept = v.kept; reached = v.reached }
step-Honest destroys e v = destroy-Honest e v

run-Honest : (xs : List Event) (e : Loop) → Honest e → Honest (run xs e)
unfolding run
run-Honest [] e v = v
run-Honest (x ∷ xs) e v = run-Honest xs (step x e) (step-Honest x e v)

false_or_Kept : (rs : List Resolved) → All Kept rs → All IsKept rs
false_or_Kept [] h = tt
false_or_Kept (r ∷ rs) h =
    (elim (Bool-cases r.value) [ inl e ↦ inr (h.0 e) | inr e ↦ inl e ], false_or_Kept rs h.1)

-- After any sequence of events, each promise of a stable frame that was resolved is resolved with
-- false, or a frame has been drawn after it was asked for; and `onFatal` was called at most once.
pub run_kept :
    (xs : List Event) → let e = run xs new_loop in All IsKept e.resolved × (e.fatal_calls ≤ 1)
run_kept xs = (
  false_or_Kept (run xs new_loop).resolved
      (run-Honest xs new_loop (record { kept = tt; reached = tt })).kept,
  (run-Inv xs new_loop new_loop-Inv).one_fatal.0,
)
