-- ===== src/Tools/Outcome.antt =====
-- Whole executions of src/humanflow/tools/executor.py while no other task touches the conversation.
use humanflow.Telemetry.Payload.{end, int, field}
use humanflow.Tools.Attempts.{reason_full, edges, fail_attempt-At, begin_attempt-Begun, Begun}
use humanflow.Tools.Finish.{
  complete_attempt-Finished, recover_with_fallback-Finished, finish_late, finish_early, Finished,
  Completed,
}
use humanflow.Tools.Returns.{bind-Returns, Returns-map, Returns}
use humanflow.Shared.Result.{Result}
use humanflow.Tools.Executor.{
  fail_attempt, move, await_reply, recover_with_fallback, complete_attempt, begin_attempt, execute,
  settle_attempt, run_attempts, go_on,
}
use humanflow.Tools.Models.{ToolProviderResponse, ToolExecutionResult}
use humanflow.Shared.Text.{is_blank}
use humanflow.Tools.Awaits.{await_reply-Awaited, Awaited, IsUndisturbed}
use humanflow.Tools.Steps.{move-At, At, IsSoundRequest}
use humanflow.Tools.Calls.{failure_reason, has_failed, Executor, Request}
use humanflow.Shared.Action.{Action}
use humanflow.Conversation.{tool_wait, recovering, thinking, state_instance}
use humanflow.Tools.Attempts.{edges, reason_full}
use mathlib.Core.Path.{subst}
use humanflow.Shared.{
  ℕ, zero, suc, ◌+◌, ◌≤◌, String, ◌≡◌, refl, sym, inl, inr, true, false, Option, none, some, arith,
  nat_instance, string_instance, pos, int_instance,
}

module _ (q : Request) (sound : IsSoundRequest q) (calm : IsUndisturbed q) (start : Executor)
    (known : is_blank start.machine.conversation_id ≡ false) where
  -- What a retry must give: the attempts that are left start with the next one.
  abbrev Retries : ℕ → ℕ → (ℕ → String → Action Executor ToolExecutionResult) → Type 0
  Retries left n retry =
      (rest : ℕ) (text : String) (s : Executor)
      → left ≡ suc rest
      → At start thinking n s
      → Returns (Completed q start) (retry (n + 1) text s)

  go_on-Completed :
      (left n : ℕ) (text : String) (retry : ℕ → String → Action Executor ToolExecutionResult)
      (s : Executor)
      → 1 ≤ n
      → left + n ≡ q.max_attempts
      → At start recovering n s
      → Retries left n retry
      → Returns (Completed q start) (go_on q left n text retry s)
  unfolding go_on
  go_on-Completed zero n text retry s some_attempt total h again =
      Returns-map (Finished start n n true) (Completed q start) (recover_with_fallback q n text s)
        (λ r s' f. finish_late q sound calm start known n n r s' refl (omega arith) f)
        (recover_with_fallback-Finished q sound calm start known n n text s some_attempt h)
  go_on-Completed (suc left) n text retry s some_attempt total h again =
      bind-Returns (λ u s'. At start thinking n s') (Completed q start)
        (move q thinking "bounded_tool_retry" (field "next_attempt" (int (pos (n + 1))) end))
        (λ u. retry (n + 1) text) s
        (move-At q sound start known thinking "bounded_tool_retry"
          (field "next_attempt" (int (pos (n + 1))) end) recovering n s edges.2 reason_full.9 h)
        (λ u s1 h1. again left text s1 refl h1)

  settle_attempt-Completed :
      (left k : ℕ) (reason : Option String)
      (retry : ℕ → String → Action Executor ToolExecutionResult) (s : Executor)
      (o : Result ToolProviderResponse × Executor)
      → left + (k + 1) ≡ q.max_attempts
      → At start tool_wait k s
      → Retries left (k + 1) retry
      → Awaited s o
      → Returns (Completed q start) (settle_attempt q left (k + 1) reason retry o.0 o.1)
  unfolding settle_attempt
  settle_attempt-Completed left k reason retry s o total h again (inl (r, e)) =
      subst (λ x. Returns (Completed q start) (settle_attempt q left (k + 1) reason retry x.0 x.1))
        (sym e)
        (Returns-map (Finished start (k + 1) k false) (Completed q start)
          (complete_attempt q (k + 1) reason r s)
          (λ v s' f.
            finish_early q sound calm start known (k + 1) k v s' (omega arith) (omega arith) f)
          (complete_attempt-Finished q sound calm start known (k + 1) k reason r s (omega arith) h))
  settle_attempt-Completed left k reason retry s o total h again (inr (x, full, e)) =
      subst (λ y. Returns (Completed q start) (settle_attempt q left (k + 1) reason retry y.0 y.1))
        (sym e)
        (bind-Returns (λ u s'. At start recovering (k + 1) s') (Completed q start)
          (fail_attempt q (k + 1) (has_failed reason) x)
          (λ u. go_on q left (k + 1) (failure_reason x) retry) s
          (fail_attempt-At q sound start known (k + 1) k (has_failed reason) x s full h)
          (λ u s1 h1.
            go_on-Completed left (k + 1) (failure_reason x) retry s1 (omega arith) total h1 again))

  attempted :
      (left k : ℕ) (reason : Option String) (s : Executor)
      → left + (k + 1) ≡ q.max_attempts
      → At start thinking k s
      → Retries left (k + 1) (λ m text. run_attempts q left m (some text))
      → Returns (Completed q start) (run_attempts q (suc left) (k + 1) reason s)
  unfolding run_attempts
  attempted left k reason s total h again =
      bind-Returns (Begun start k) (Completed q start) (begin_attempt q (k + 1))
        (λ token s1.
          let (outcome, after) = await_reply q (k + 1) token s1 in
          settle_attempt q left (k + 1) reason (λ m text. run_attempts q left m (some text)) outcome
            after)
        s (begin_attempt-Begun q sound start known (k + 1) k s h)
        (λ token s1 b.
          settle_attempt-Completed left k reason (λ m text. run_attempts q left m (some text)) s1
            (await_reply q (k + 1) token s1) total b.0 again
            (await_reply-Awaited q sound calm start known (k + 1) token s1 b.1))

  run_attempts-Completed :
      (left k : ℕ) (reason : Option String) (s : Executor)
      → left + (k + 1) ≡ q.max_attempts
      → At start thinking k s
      → Returns (Completed q start) (run_attempts q (suc left) (k + 1) reason s)
  run_attempts-Completed zero k reason s total h =
      attempted zero k reason s total h (λ rest text s2 e h2. absurd (omega (arith, e)))
  run_attempts-Completed (suc left) k reason s total h =
      attempted (suc left) k reason s total h
        (λ rest text s2 e h2. run_attempts-Completed left (k + 1) (some text) s2 (omega arith) h2)

  run_all :
      (limit : ℕ) (s : Executor)
      → limit ≡ q.max_attempts
      → 1 ≤ limit
      → At start thinking 0 s
      → Returns (Completed q start) (run_attempts q limit 1 none s)
  run_all zero s e some_attempt h = absurd (omega arith)
  run_all (suc left) s e some_attempt h = run_attempts-Completed left 0 none s (omega arith) h

  -- With sound metadata, no other task on the conversation, and a fallback that gives a mapping, a tool
  -- call that starts while the conversation thinks returns within the limit of attempts and leaves it
  -- thinking; each failed attempt invalidated the operations once, and the fallback was used only after
  -- the last attempt.
  pub execute-Completed :
      1 ≤ q.max_attempts
      → start.machine.state ≡ thinking
      → Returns (Completed q start) (execute q start)
  unfolding execute
  execute-Completed some_attempt stands =
      let same = (state_instance.same_iff start.machine.state thinking).1 stands in
      rw (sound.named, same)
        (run_all q.max_attempts start refl some_attempt
          (record { stands = stands; epoch = omega arith; conversation = refl; seen = refl }))
