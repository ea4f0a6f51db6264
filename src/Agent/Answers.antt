-- ===== src/Agent/Answers.antt =====
-- Every tool call gets one answer, in order, whatever the tools do and however they interleave.
use gori.Prelude.{
  ltb, Bool-cases, length, All, ℕ, zero, suc, String, ◌≡◌, refl, ap, subst, ◌∙◌, inl, inr, ◌&&◌,
  Option, none, some, List, [], ◌∷◌, map, arith,
}
use gori.Message.{tool, ToolUse, ToolResult, tool_result, Message}
use gori.Bus.{EventData}
use gori.Registry.{Outcome, returned, failed, panicked, Tool, get}
use gori.Agent.{Agent, Host, Run, emit}
use gori.Agent.Tools.{
  result_of, Worker, waiting, called, answered, finished, exec_found, exec_in, exec_tool, emit_call,
  emit_result, execute, run_one, run_each, advance, advance_at, interleave, complete, wait,
  run_parallel, run_uses,
}

-- The answer names the call.
abbrev pub Answers : ToolUse → ToolResult → Type 0
Answers u x = (x.tool_use_id ≡ u.id) × (x.name ≡ u.name)

abbrev pub AnswersAll : List ToolUse → List ToolResult → Type 0
AnswersAll [] [] = Unit
AnswersAll [] (x ∷ xs) = ⊥
AnswersAll (u ∷ us) [] = ⊥
AnswersAll (u ∷ us) (x ∷ xs) = Answers u x × AnswersAll us xs

-- A message of role `tool` that holds the answers to the calls, and nothing else.
pub record Replies (us : List ToolUse) (m : Message) : Type 0 where
  pub results : List ToolResult
  pub is_tool_message : m ≡ record { role = tool; content = map tool_result results }
  pub answers : AnswersAll us results

result_of-Answers : (u : ToolUse) (o : Outcome) → Answers u (result_of u o)
unfolding result_of
result_of-Answers u (returned out) = (refl, refl)
result_of-Answers u (failed e) = (refl, refl)
result_of-Answers u (panicked v) = (refl, refl)

use_of : Worker → ToolUse
use_of (waiting u) = u
use_of (called u) = u
use_of (answered u x) = u
use_of (finished u x) = u

abbrev IsSound : Worker → Type 0
IsSound (waiting u) = Unit
IsSound (called u) = Unit
IsSound (answered u x) = Answers u x
IsSound (finished u x) = Answers u x

waiting-IsSound :
    (us : List ToolUse) → All IsSound (map waiting us) × (map use_of (map waiting us) ≡ us)
unfolding use_of
waiting-IsSound [] = (tt, refl)
waiting-IsSound (u ∷ us) = let (s, e) = waiting-IsSound us in ((tt, s), ap (◌∷◌ u) e)

module _ {W : Type 0} where
  pub emit-agent : (k : String) (d : EventData) (r : Run W) → (emit k d r).agent ≡ r.agent
  unfolding emit
  emit-agent k d r = elim (Bool-cases r.agent.has_bus) [
    | inl e ↦ ground arith
    | inr e ↦ ground arith
  ]

  exec_tool-Answers : (u : ToolUse) (a : Agent W) (w : W) → Answers u (exec_tool u a w).0
  unfolding exec_tool exec_in exec_found
  exec_tool-Answers u a w = go a.tools
    where
      found : (t : Option (Tool W)) → Answers u (exec_found u t w).0
      found none = (refl, refl)
      found (some t) = result_of-Answers u (t.execute u.input w).0

      go : (ts : Option (List (Tool W))) → Answers u (exec_in u ts w).0
      go none = (refl, refl)
      go (some ts) = found (get u.name ts)

  run_one-Answers : (u : ToolUse) (r : Run W) → Answers u (run_one u r).0
  unfolding run_one execute
  run_one-Answers u r = exec_tool-Answers u _ _

  run_one-agent : (u : ToolUse) (r : Run W) → (run_one u r).1.agent ≡ r.agent
  unfolding run_one execute emit_call emit_result
  run_one-agent u r = emit-agent _ _ _ ∙ emit-agent _ _ _

  run_each-AnswersAll : (us : List ToolUse) (r : Run W) → AnswersAll us (run_each us r).0
  unfolding run_each
  run_each-AnswersAll [] r = tt
  run_each-AnswersAll (u ∷ us) r = (run_one-Answers u r, run_each-AnswersAll us (run_one u r).1)

  run_each-agent : (us : List ToolUse) (r : Run W) → (run_each us r).1.agent ≡ r.agent
  unfolding run_each
  run_each-agent [] r = refl
  run_each-agent (u ∷ us) r = run_each-agent us (run_one u r).1 ∙ run_one-agent u r

  -- One step of a goroutine keeps its call, its soundness and the agent.
  advance_keeps :
      (k : Worker) (r : Run W)
      → IsSound k
      → (use_of (advance k r).0 ≡ use_of k)
        × IsSound (advance k r).0
        × ((advance k r).1.agent ≡ r.agent)
  unfolding advance use_of execute emit_call emit_result
  advance_keeps (waiting u) r s = (refl, tt, emit-agent _ _ _)
  advance_keeps (called u) r s = (refl, exec_tool-Answers u _ _, refl)
  advance_keeps (answered u x) r s = (refl, s, emit-agent _ _ _)
  advance_keeps (finished u x) r s = (refl, s, refl)

  abbrev Kept : List Worker → Run W → List Worker × Run W → Type 0
  Kept ks r (ks', r') = (map use_of ks' ≡ map use_of ks) × All IsSound ks' × (r'.agent ≡ r.agent)

  advance_at_keeps :
      (i : ℕ) (ks : List Worker) (r : Run W) → All IsSound ks → Kept ks r (advance_at i ks r)
  unfolding advance_at
  advance_at_keeps i [] r s = (refl, tt, refl)
  advance_at_keeps zero (k ∷ ks) r s =
      let (u, s', a) = advance_keeps k r s.0 in (ap (λ v. v ∷ map use_of ks) u, (s', s.1), a)
  advance_at_keeps (suc i) (k ∷ ks) r s =
      let (us, s', a) = advance_at_keeps i ks r s.1 in (ap (◌∷◌ (use_of k)) us, (s.0, s'), a)

  interleave_keeps :
      (schedule : List ℕ) (ks : List Worker) (r : Run W)
      → All IsSound ks
      → Kept ks r (interleave schedule ks r)
  unfolding interleave
  interleave_keeps [] ks r s = (refl, s, refl)
  interleave_keeps (i ∷ is) ks r s =
      let (us, s', a) = advance_at_keeps i ks r s in
      let (us', s'', a') = interleave_keeps is _ _ s' in (us' ∙ us, s'', a' ∙ a)

  complete_lem :
      (k : Worker) (r : Run W)
      → IsSound k
      → Answers (use_of k) (complete k r).0 × ((complete k r).1.agent ≡ r.agent)
  unfolding complete use_of execute emit_result
  complete_lem (waiting u) r s = (run_one-Answers u r, run_one-agent u r)
  complete_lem (called u) r s = (exec_tool-Answers u _ _, emit-agent _ _ _)
  complete_lem (answered u x) r s = (s, emit-agent _ _ _)
  complete_lem (finished u x) r s = (s, refl)

  wait_lem :
      (ks : List Worker) (r : Run W)
      → All IsSound ks
      → AnswersAll (map use_of ks) (wait ks r).0 × ((wait ks r).1.agent ≡ r.agent)
  unfolding wait
  wait_lem [] r s = (tt, refl)
  wait_lem (k ∷ ks) r s =
      let (x, a) = complete_lem k r s.0 in
      let (xs, a') = wait_lem ks (complete k r).1 s.1 in ((x, xs), a' ∙ a)

  -- However the goroutines of the parallel branch are scheduled, each call has one answer, at its
  -- place, and the agent is unchanged.
  pub run_parallel_answers :
      (schedule : List ℕ) (us : List ToolUse) (r : Run W)
      → AnswersAll us (run_parallel schedule us r).0
        × ((run_parallel schedule us r).1.agent ≡ r.agent)
  unfolding run_parallel
  run_parallel_answers schedule us r =
      let (s, e) = waiting-IsSound us in
      let (us', s', a) = interleave_keeps schedule (map waiting us) r s in
      let (xs, a') = wait_lem _ _ s' in
      (subst (λ vs. AnswersAll vs (run_parallel schedule us r).0) (us' ∙ e) xs, a' ∙ a)

  pub run_uses_answers :
      (h : Host W) (us : List ToolUse) (r : Run W)
      → AnswersAll us (run_uses h us r).0 × ((run_uses h us r).1.agent ≡ r.agent)
  unfolding run_uses
  run_uses_answers h us r = elim (Bool-cases (r.agent.parallel_tools && ltb 1 (length us))) [
    | inl e ↦ simp e (run_parallel_answers (h.schedule r.world) us r)
    | inr e ↦ simp e (run_each-AnswersAll us r, run_each-agent us r)
  ]
