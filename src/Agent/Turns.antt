-- ===== src/Agent/Turns.antt =====
-- What the loop leaves behind: a history of answered turns, exact accounts, and how it ended.
use gori.Prelude.{
  Bool-cases, All, Result, ok, err, ℕ, zero, suc, ◌+◌, String, ◌≡◌, refl, sym, ap, subst, ◌∙◌, ◌≢◌,
  inl, inr, Option, none, some, List, [], ◌∷◌, ◌++◌, map, append-nil, append_assoc, arith,
}
use gori.Message.{ToolUse, Message, tool_uses}
use gori.Provider.{StopReason, sum_usage, Response}
use gori.Bus.{EventData}
use gori.Session.{append_messages}
use gori.Agent.{Agent, Host, Run, executable_stop, session_of, emit, request, remember}
use gori.Agent.Tools.{
  truncated_result, truncated_reply, answer_truncated, run_uses, observe_uses, observe,
}
use gori.Agent.Loop.{
  Answer, account, take_response, or_truncated, react, finish_turn, on_result, on_context, loop,
}
use gori.Agent.Answers.{AnswersAll, Replies, emit-agent, run_uses_answers}
use gori.Agent.Course.{
  Turn, messages_of, usages_of, turn_of, remember_agent, told, Reacted, Course, exhausted,
  interrupted, refused, done, more,
}

-- A turn has a reply exactly if the model called tools, and it answers all the calls in order.
abbrev pub IsAnswered : Turn → Type 0
IsAnswered t = elim t.reply [
  | none ↦ tool_uses t.message ≡ []
  | some m ↦ (tool_uses t.message ≢ []) × Replies (tool_uses t.message) m
]

-- What the loop may leave of the agent: everything but the session and the accounts is as it was.
pub record Went {W : Type 0} (h : Host W) (left : ℕ) (last : Message) (r : Run W) (a : Answer)
    (r' : Run W) : Type 0 where
  pub turns : List Turn
  pub history_is : (session_of r'.agent).history ≡ (session_of r.agent).history ++ messages_of turns
  pub answered : All IsAnswered turns
  pub steps_are : r'.agent.step_usage ≡ r.agent.step_usage ++ usages_of turns
  pub total_is : r'.agent.total_usage ≡ sum_usage r.agent.total_usage (usages_of turns)
  pub session_is : r'.agent.session_usage ≡ sum_usage r.agent.session_usage (usages_of turns)
  pub keep_last_is : r'.agent.keep_last ≡ r.agent.keep_last
  pub course : Course h left last r.agent r.world turns a r'.world

pub truncated_answers :
    (reason : StopReason) (us : List ToolUse) → AnswersAll us (map (truncated_result reason) us)
unfolding truncated_result
truncated_answers reason [] = tt
truncated_answers reason (u ∷ us) = ((refl, refl), truncated_answers reason us)

module _ {W : Type 0} where
  history-remember :
      (m : Message) (r : Run W)
      → (session_of (remember m r).agent).history ≡ (session_of r.agent).history ++ m ∷ []
  unfolding remember session_of append_messages
  history-remember m r = refl

  -- What `react` answers, on every branch: nothing exactly if there is no call.
  abbrev Reacts : List ToolUse → Run W → Option Message × Run W → Type 0
  Reacts us r (none, r') = (r' ≡ r) × (us ≡ [])
  Reacts us r (some m, r') = (r'.agent ≡ r.agent) × (us ≢ []) × Replies us m

  react_uses :
      (h : Host W) (reason : StopReason) (us : List ToolUse) (r : Run W)
      → Reacts us r (or_truncated (truncated_reply reason us) (observe_uses h reason us r))
  unfolding or_truncated observe_uses truncated_reply
  react_uses h reason [] r = (refl, refl)
  react_uses h reason (u ∷ us) r = elim (Bool-cases (executable_stop reason)) [
    | inl go ↦
        let (xs, a) = run_uses_answers h (u ∷ us) r in
        rw go (
          a,
          (λ e. cc),
          record { results = (run_uses h (u ∷ us) r).0; is_tool_message = refl; answers = xs },
        )
    | inr stop ↦ rw stop (
      refl,
      (λ e. cc),
      record {
        results = map (truncated_result reason) (u ∷ us);
        is_tool_message = refl;
        answers = truncated_answers reason (u ∷ us);
      },
    )
  ]

  react_lem :
      (h : Host W) (resp : Response) (r : Run W)
      → Reacts (tool_uses resp.message) r (react h resp r)
  unfolding react observe answer_truncated
  react_lem h resp r = react_uses h resp.stop_reason (tool_uses resp.message) r

  pub emit-world : (k : String) (d : EventData) (r : Run W) → (emit k d r).world ≡ r.world
  unfolding emit
  emit-world k d r = elim (Bool-cases r.agent.has_bus) [
    | inl e ↦ ground arith
    | inr e ↦ ground arith
  ]

  take_response-world :
      (i : ℕ) (resp : Response) (r : Run W) → (take_response i resp r).world ≡ r.world
  unfolding take_response remember account
  take_response-world i resp r = emit-world _ _ _ ∙ emit-world _ _ _

  take_response-agent :
      (i : ℕ) (resp : Response) (r : Run W) → (take_response i resp r).agent ≡ told resp r.agent
  unfolding take_response remember account
  take_response-agent i resp r =
      emit-agent _ _ _ ∙ ap (remember_agent resp.message) (emit-agent _ _ _)

  module _ (h : Host W) (left : ℕ) (last : Message) (r r' : Run W) (resp : Response) (v : W)
      (live : h.cancelled r.world ≡ none)
      (answers : h.call (request r.agent) r.world ≡ (ok resp, v)) where
    Went-done :
        tool_uses resp.message ≡ []
        → r'.agent ≡ told resp r.agent
        → r'.world ≡ v
        → Went h (suc left) last r (resp.message, none) r'
    unfolding session_of append_messages sum_usage
    Went-done no_call p q = record {
      turns = turn_of resp none ∷ [];
      history_is = ap (λ (a : Agent W). (session_of a).history) p;
      answered = (no_call, tt);
      steps_are = ap (λ (a : Agent W). a.step_usage) p;
      total_is = ap (λ (a : Agent W). a.total_usage) p;
      session_is = ap (λ (a : Agent W). a.session_usage) p;
      keep_last_is = ap (λ (a : Agent W). a.keep_last) p;
      course =
          subst
            (λ u.
              Course h (suc left) last r.agent r.world (turn_of resp none ∷ []) (resp.message, none)
                u)
            (sym q) (done live answers no_call);
    }

    Went-more :
        (m : Message) (r₁ : Run W) (a : Answer)
        → tool_uses resp.message ≢ []
        → Replies (tool_uses resp.message) m
        → Reacted h resp (told resp r.agent) v m r₁.world
        → r₁.agent ≡ remember_agent m (told resp r.agent)
        → Went h left resp.message r₁ a r'
        → Went h (suc left) last r a r'
    unfolding session_of append_messages sum_usage
    Went-more m r₁ a call replies reacted p w = record {
      turns = turn_of resp (some m) ∷ w.turns;
      history_is =
          w.history_is
          ∙ ap (λ (b : Agent W). (session_of b).history ++ messages_of w.turns) p
          ∙ append_assoc _ (m ∷ []) (messages_of w.turns)
          ∙ append_assoc _ (resp.message ∷ []) (m ∷ messages_of w.turns);
      answered = ((call, replies), w.answered);
      steps_are =
          w.steps_are
          ∙ ap (λ (b : Agent W). b.step_usage ++ usages_of w.turns) p
          ∙ append_assoc _ (resp.usage ∷ []) (usages_of w.turns);
      total_is = w.total_is ∙ ap (λ (b : Agent W). sum_usage b.total_usage (usages_of w.turns)) p;
      session_is =
          w.session_is ∙ ap (λ (b : Agent W). sum_usage b.session_usage (usages_of w.turns)) p;
      keep_last_is = w.keep_last_is ∙ ap (λ (b : Agent W). b.keep_last) p;
      course =
          more live answers reacted
            (subst (λ b. Course h left resp.message b r₁.world w.turns a r'.world) p w.course);
    }

  Went-stop :
      (h : Host W) (left : ℕ) (last : Message) (r r' : Run W) (a : Answer) (u : W)
      → r'.agent ≡ r.agent
      → r'.world ≡ u
      → Course h left last r.agent r.world [] a u
      → Went h left last r a r'
  unfolding sum_usage
  Went-stop h left last r r' a u p q course = record {
    turns = [];
    history_is = ap (λ (b : Agent W). (session_of b).history) p ∙ sym (append-nil _);
    answered = tt;
    steps_are = ap (λ (b : Agent W). b.step_usage) p ∙ sym (append-nil _);
    total_is = ap (λ (b : Agent W). b.total_usage) p;
    session_is = ap (λ (b : Agent W). b.session_usage) p;
    keep_last_is = ap (λ (b : Agent W). b.keep_last) p;
    course = subst (λ w. Course h left last r.agent r.world [] a w) (sym q) course;
  }

  -- What the next iteration is known to do.
  abbrev Goes : Host W → ℕ → (Message → Run W → Answer × Run W) → Type 0
  Goes h left go = (last : Message) (r : Run W) → Went h left last r (go last r).0 (go last r).1

  module _ (h : Host W) (left : ℕ) (go : Message → Run W → Answer × Run W) (goes : Goes h left go)
      (last : Message) (r : Run W) (live : h.cancelled r.world ≡ none) where
    finish_turn-Went :
        (resp : Response) (v : W) (r₁ : Run W) (reaction : Option Message × Run W)
        → h.call (request r.agent) r.world ≡ (ok resp, v)
        → r₁.agent ≡ told resp r.agent
        → r₁.world ≡ v
        → react h resp r₁ ≡ reaction
        → Reacts (tool_uses resp.message) r₁ reaction
        → Went h (suc left) last r (finish_turn go resp reaction).0 (finish_turn go resp reaction).1
    unfolding finish_turn remember
    finish_turn-Went resp v r₁ (some m, r₂) c p q e (a, call, answers) =
        Went-more h left last r _ resp v live c m _ _ call answers
          (record {
            before = r₁;
            after = r₂;
            its_agent = p;
            its_world = q;
            reacts = e;
            leaves = refl;
          })
          (ap (remember_agent m) (a ∙ p)) (goes resp.message _)
    finish_turn-Went resp v r₁ (none, r₂) c p q e (same, no_call) =
        Went-done h left last r _ resp v live c no_call
          (emit-agent _ _ _ ∙ ap (λ (x : Run W). x.agent) same ∙ p)
          (emit-world _ _ _ ∙ ap (λ (x : Run W). x.world) same ∙ q)

    on_result-Went :
        (i : ℕ) (result : Result Response) (v : W)
        → h.call (request r.agent) r.world ≡ (result, v)
        → Went h
            (suc left)
            last
            r
            (on_result h i go last result (record r { world = v })).0
            (on_result h i go last result (record r { world = v })).1
    unfolding on_result
    on_result-Went i (err e) v c =
        Went-stop h (suc left) last r _ _ v (emit-agent _ _ _) (emit-world _ _ _) (refused live c)
    on_result-Went i (ok resp) v c =
        finish_turn-Went resp v (take_response i resp (record r { world = v })) _ c
          (take_response-agent i resp (record r { world = v }))
          (take_response-world i resp (record r { world = v })) refl (react_lem h resp _)

  on_context-Went :
      (h : Host W) (left : ℕ) (go : Message → Run W → Answer × Run W) (i : ℕ) (last : Message)
      (c : Option String) (r : Run W)
      → Goes h left go
      → h.cancelled r.world ≡ c
      → Went h (suc left) last r (on_context h i go last c r).0 (on_context h i go last c r).1
  unfolding on_context
  on_context-Went h left go i last (some e) r goes c =
      Went-stop h (suc left) last r _ _ r.world (emit-agent _ _ _) (emit-world _ _ _)
        (interrupted c)
  on_context-Went h left go i last none r goes c =
      let (result, w) = h.call (request r.agent) r.world in
      on_result-Went h left go goes last r c i result w refl

  -- The loop takes a course: before each step it asks the context, then it sends the provider one
  -- request, that of the agent at this point, and each response is one turn, with its message and its
  -- usage. The session grows by these turns, and the accounts by exactly their usages. Each turn whose
  -- message calls tools has one reply that answers all its calls in order, the others have none, and
  -- the next step goes on from the world that the tools have left. The loop ends by a turn that calls no
  -- tool, which gives its answer; by the error of the context or of the provider; or, when no step
  -- is left, with `max_steps_reached`.
  pub loop-Went :
      (h : Host W) (left i : ℕ) (last : Message) (r : Run W)
      → Went h left last r (loop h left i last r).0 (loop h left i last r).1
  unfolding loop
  loop-Went h zero i last r =
      Went-stop h zero last r _ _ r.world (emit-agent _ _ _) (emit-world _ _ _) exhausted
  loop-Went h (suc left) i last r =
      on_context-Went h left (loop h left (i + 1)) i last _ r (λ m s. loop-Went h left (i + 1) m s)
        refl
