-- ===== src/Agent/Runs.antt =====
-- A whole run: from the user's message to the trimmed session.
use gori.Prelude.{
  ◌>>=◌, length, drop, All, ℕ, zero, suc, ◌≤◌, ◌<◌, ◌≡◌, refl, sym, ap, subst, ◌∙◌, ◌≢◌, none, some,
  List, [], ◌∷◌, ◌++◌, append_assoc, arith,
}
use gori.Prelude.Int.{ℤ, pos, negsuc}
use gori.Message.{Message}
use gori.Provider.{zero_usage, sum_usage}
use gori.Session.{append_messages, trim}
use gori.Session.Window.{IsCut, window_start, StartsWithUser, trim_history-IsCut}
use gori.Agent.{
  Agent, Host, Run, context_error, provider_error, max_steps_reached, session_of, ensure, max_steps,
  remember,
}
use gori.Agent.Loop.{
  no_message, Answer, loop, trim_by, trim_on_exit, drive, fresh_usage, begin, run_message,
}
use gori.Agent.Answers.{emit-agent}
use gori.Agent.Course.{
  Turn, messages_of, usages_of, turn_of, remember_agent, Course, exhausted, interrupted, refused,
  done, more,
}
use gori.Agent.Turns.{IsAnswered, emit-world, loop-Went}

Course-length :
    {W : Type 0} {h : Host W} {left : ℕ} {last : Message} {b : Agent W} {w v : W} {ts : List Turn}
    {a : Answer}
    → Course h left last b w ts a v
    → length ts ≤ left
Course-length exhausted = omega arith
Course-length (interrupted e) = omega arith
Course-length (refused e c) = omega arith
Course-length (done e c n) = omega arith
Course-length (more e c t rest) = omega (arith, Course-length rest)

-- The last turn has this message and no reply.
abbrev pub EndsWith : List Turn → Message → Type 0
EndsWith [] m = ⊥
EndsWith (t ∷ []) m = (t.message ≡ m) × (t.reply ≡ none)
EndsWith (t ∷ u ∷ ts) m = EndsWith (u ∷ ts) m

abbrev pub HasReply : Turn → Type 0
HasReply t = t.reply ≢ none

-- Without an error, the answer is the message of the last turn, which has no reply; with one, every
-- turn has a reply.
abbrev pub Outcome : ℕ → List Turn → Answer → Type 0
Outcome steps ts (m, none) = EndsWith ts m
Outcome steps ts (m, some (max_steps_reached n)) = (length ts ≡ steps) × All HasReply ts
Outcome steps ts (m, some (context_error e)) = (length ts < steps) × All HasReply ts
Outcome steps ts (m, some (provider_error e)) = (length ts < steps) × All HasReply ts

Outcome-more :
    (left : ℕ) (t : Turn) (ts : List Turn) (a : Answer)
    → HasReply t
    → Outcome left ts a
    → Outcome (suc left) (t ∷ ts) a
Outcome-more left t [] (m, none) r o = elim o [ ]
Outcome-more left t (u ∷ ts) (m, none) r o = o
Outcome-more left t ts (m, some (max_steps_reached n)) r (o, all) = (omega (arith, o), (r, all))
Outcome-more left t ts (m, some (context_error e)) r (o, all) = (omega (arith, o), (r, all))
Outcome-more left t ts (m, some (provider_error e)) r (o, all) = (omega (arith, o), (r, all))

Course-Outcome :
    {W : Type 0} {h : Host W} {left : ℕ} {last : Message} {b : Agent W} {w v : W} {ts : List Turn}
    {a : Answer}
    → Course h left last b w ts a v
    → Outcome left ts a
Course-Outcome exhausted = (refl, tt)
Course-Outcome (interrupted e) = (omega arith, tt)
Course-Outcome (refused e c) = (omega arith, tt)
Course-Outcome (done e c n) = (refl, refl)
Course-Outcome (more {left} {m = m} {resp = resp} {ts = ts} {answer = answer} e c t rest) =
    Outcome-more left (turn_of resp (some m)) ts answer (λ q. cc) (Course-Outcome rest)

length-usages_of : (ts : List Turn) → length (usages_of ts) ≡ length ts
length-usages_of [] = refl
length-usages_of (t ∷ ts) = ap suc (length-usages_of ts)

-- What the deferred `Trim` does to the history of a run.
abbrev pub Trimmed : ℤ → List Message → List Message → Type 0
Trimmed (negsuc n) h h' = h' ≡ h
Trimmed (pos zero) h h' = h' ≡ h
Trimmed (pos (suc k)) h h' =
    (i : ℕ) × (h' ≡ drop i h) × IsCut h (window_start (suc k) h) i × StartsWithUser h'

module _ {W : Type 0} where
  -- The run's start: the accounts of the last run are cleared, and the input is remembered.
  abbrev pub started : Message → Run W → Run W
  started m r = begin m (record r { agent = ensure r.agent })

  history : Run W → List Message
  history r = (session_of r.agent).history

  pub record SameAccounts (a b : Agent W) : Type 0 where
    pub steps : b.step_usage ≡ a.step_usage
    pub total : b.total_usage ≡ a.total_usage
    pub session : b.session_usage ≡ a.session_usage

  abbrev Trims : ℤ → Run W → Type 0
  Trims keep r =
      (r' : Run W) × (trim_by keep r ≡ some r')
      × Trimmed keep (session_of r.agent).history (session_of r'.agent).history
      × SameAccounts r.agent r'.agent
      × (r'.world ≡ r.world)

  trim_by_lem : (keep : ℤ) (r : Run W) → Trims keep r
  unfolding trim_by trim session_of
  trim_by_lem (negsuc n) r =
      (r, refl, refl, record { steps = refl; total = refl; session = refl }, refl)
  trim_by_lem (pos zero) r =
      (r, refl, refl, record { steps = refl; total = refl; session = refl }, refl)
  trim_by_lem (pos (suc k)) r =
      let s = session_of r.agent in
      let (i, e, c, w) = trim_history-IsCut k s.history in
      (
        record r {
          agent = record (r.agent) { session = some (record s { history = drop i s.history }) };
        },
        rw e,
        (i, refl, c, w),
        record { steps = refl; total = refl; session = refl },
        refl,
      )

  -- The agent that sends the first request.
  abbrev pub asked_first : Message → Run W → Agent W
  asked_first m r = remember_agent m (fresh_usage (ensure r.agent))

  begin-world : (m : Message) (r : Run W) → (started m r).world ≡ r.world
  unfolding begin remember
  begin-world m r = emit-world _ _ _

  -- A run whose context is live.
  pub record Ran (h : Host W) (m : Message) (r : Run W) (a : Answer) (r' : Run W) : Type 0 where
    pub turns : List Turn
    pub answered : All IsAnswered turns
    pub outcome : Outcome (max_steps r.agent) turns a
    pub bounded : length turns ≤ max_steps r.agent
    pub before_trim : List Message
    pub history_is : before_trim ≡ (session_of r.agent).history ++ (m ∷ messages_of turns)
    pub trimmed : Trimmed r.agent.keep_last before_trim (session_of r'.agent).history
    pub steps_are : r'.agent.step_usage ≡ usages_of turns
    pub total_is : r'.agent.total_usage ≡ sum_usage zero_usage (usages_of turns)
    pub session_is : r'.agent.session_usage ≡ sum_usage r.agent.session_usage (usages_of turns)
    pub course : Course h (max_steps r.agent) no_message (asked_first m r) r.world turns a r'.world

  begin-agent :
      (m : Message) (r : Run W)
      → (started m r).agent ≡ remember_agent m (fresh_usage (ensure r.agent))
  unfolding begin remember
  begin-agent m r = ap (remember_agent m) (emit-agent _ _ _)

  max_steps-started : (m : Message) (r : Run W) → max_steps (started m r).agent ≡ max_steps r.agent
  unfolding max_steps ensure
  max_steps-started m r = ap max_steps (begin-agent m r)

  drive_lem :
      (h : Host W) (r r₂ : Run W)
      → (let r₁ = (loop h (max_steps r.agent) 0 no_message r).1 in
          trim_by r₁.agent.keep_last r₁ ≡ some r₂)
      → drive h r ≡ some ((loop h (max_steps r.agent) 0 no_message r).0, r₂)
  unfolding drive trim_on_exit
  drive_lem h r r₂ e =
      ap (λ o. o >>= λ s. some ((loop h (max_steps r.agent) 0 no_message r).0, s)) e

  run_message-drive :
      (h : Host W) (m : Message) (r : Run W)
      → h.cancelled r.world ≡ none
      → run_message h m r ≡ drive h (started m r)
  unfolding run_message
  run_message-drive h m r live = rw (live, run_message)

  -- From a live context a run ends, without a panic, after at most `maxSteps` responses. It takes a
  -- course from the agent that has the input in its session: each step asks the context, then sends the
  -- provider one request, and each response is one turn. The session then holds the old history, the
  -- input and the answered turns, trimmed if `KeepLast` is positive and whole if not. There is no error
  -- exactly if the last turn has no reply, since it called no tool, and the answer is then that
  -- turn's message; `max_steps_reached` comes after exactly `maxSteps` turns. The run's usages are
  -- those of the responses, in order, and the totals are their sums.
  pub run_message-Ran :
      (h : Host W) (m : Message) (r : Run W)
      → h.cancelled r.world ≡ none
      → (a : Answer) × (r' : Run W) × (run_message h m r ≡ some (a, r')) × Ran h m r a r'
  unfolding session_of append_messages ensure
  run_message-Ran h m r live =
      let s = started m r in
      let p = begin-agent m r in
      let steps = max_steps-started m r in
      let w = loop-Went h (max_steps s.agent) 0 no_message s in
      let (a, r₁) = loop h (max_steps s.agent) 0 no_message s in
      let (r₂, e, t, acc, q) = trim_by_lem r₁.agent.keep_last r₁ in
      (
        a,
        r₂,
        run_message-drive h m r live ∙ drive_lem h s r₂ e,
        record {
          turns = w.turns;
          answered = w.answered;
          outcome = subst (λ n. Outcome n w.turns a) steps (Course-Outcome w.course);
          bounded = subst (λ n. length w.turns ≤ n) steps (Course-length w.course);
          before_trim = (session_of r₁.agent).history;
          history_is =
              w.history_is
              ∙ ap (λ (b : Agent W). (session_of b).history ++ messages_of w.turns) p
              ∙ append_assoc _ (m ∷ []) (messages_of w.turns);
          trimmed =
              subst (λ k. Trimmed k (session_of r₁.agent).history (session_of r₂.agent).history)
                (w.keep_last_is ∙ ap (λ (b : Agent W). b.keep_last) p) t;
          steps_are =
              acc.steps ∙ w.steps_are ∙ ap (λ (b : Agent W). b.step_usage ++ usages_of w.turns) p;
          total_is =
              acc.total
              ∙ w.total_is
              ∙ ap (λ (b : Agent W). sum_usage b.total_usage (usages_of w.turns)) p;
          session_is =
              acc.session
              ∙ w.session_is
              ∙ ap (λ (b : Agent W). sum_usage b.session_usage (usages_of w.turns)) p;
          course =
              subst
                (λ u. Course h (max_steps r.agent) no_message (asked_first m r) r.world w.turns a u)
                (sym q)
                (subst (λ n. Course h n no_message (asked_first m r) r.world w.turns a r₁.world)
                  steps
                  (subst (λ b. Course h (max_steps s.agent) no_message b r.world w.turns a r₁.world)
                    p
                    (subst
                      (λ u. Course h (max_steps s.agent) no_message s.agent u w.turns a r₁.world)
                      (begin-world m r) w.course)));
        },
      )
