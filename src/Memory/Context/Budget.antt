-- ===== src/Memory/Context/Budget.antt =====
-- What a built context is: within its budget, and with all that must stay in it.
use agent_routebench.Prelude.{
  ℕ, ◌+◌, ◌≤◌, ◌-◌, ◌≡◌, refl, Bool, true, not, String, List, [], ◌∷◌, ◌++◌, Option, none, some,
  length, All, leb, ok, AfterOk, bind-AfterOk, ensure-AfterOk, ok-AfterOk, AfterOk-ok, AfterOk-mono,
  arith, leb→le, Bool-cases, inl, inr, ◌⊎◌,
}
use agent_routebench.Contracts.Value.{Value}
use agent_routebench.Memory.Context.Options.{
  Parsed, parse_build_options, Clone, invalid_messages, context_budget_exceeded, aborted,
}
use agent_routebench.Memory.Context.{
  HistoryUnit, last_user_index, build_units, flatten, filter, is_kept, is_compressible, backwards,
  memory_messages, summary_message, Reply, BuildContextResult, cloned, run_summarizer, select_units,
  is_none, accepts, compress, shrink, whole, assemble, build_context,
}
use agent_routebench.Memory.Context.Counting.{size, select_units-all}
use agent_routebench.Memory.Context.Units.{Guards, flatten-build_units, build_units-Guards}

module _ (bytes : List Value → ℕ) (clone : Clone)
    (summarize : Option (List Value → ℕ → Reply)) where
  -- The context is all of the history.
  pub record IsWhole (parsed : Parsed) (result : BuildContextResult) : Type 0 where
    pub copied :
        clone (memory_messages parsed.memory_entries ++ parsed.messages) ≡ some result.messages
    pub counted :
        result.context_bytes ≡ bytes (memory_messages parsed.memory_entries ++ parsed.messages)
    pub nothing_omitted : result.omitted_message_count ≡ 0

  -- The context is the memory, a summary and some of the units of the history, in their order; the
  -- units that are left out could be.
  pub record IsCompressed (parsed : Parsed) (result : BuildContextResult) : Type 0 where
    pub kept : List ℕ
    pub summary : String
    pub all_units : flatten (build_units parsed.messages) ≡ parsed.messages
    pub guarded : All (Guards (last_user_index 0 parsed.messages)) (build_units parsed.messages)
    pub final : List Value
    pub shape :
        final
        ≡ memory_messages parsed.memory_entries
          ++ (summary_message summary
              ∷ flatten (filter (is_kept kept) (build_units parsed.messages)))
    pub copied : clone final ≡ some result.messages
    pub counted : result.context_bytes ≡ bytes final
    pub counts :
        result.omitted_message_count + size (filter (is_kept kept) (build_units parsed.messages))
        ≡ length parsed.messages
    pub valid : accepts bytes clone summarize final ≡ true

  -- A built context.
  pub record IsContext (parsed : Parsed) (result : BuildContextResult) : Type 0 where
    pub fits : result.context_bytes ≤ parsed.max_context_bytes
    pub shape : IsWhole parsed result ⊎ IsCompressed parsed result

  cloned-holds : (o : Option (List Value)) → AfterOk (λ copied. o ≡ some copied) (cloned o)
  cloned-holds none = record { holds = tt }
  cloned-holds (some messages) = record { holds = refl }

  compress-IsContext :
      (parsed : Parsed) (kept : List ℕ) (omitted : List HistoryUnit)
      → size (filter (is_kept kept) (build_units parsed.messages)) + size omitted
        ≡ length parsed.messages
      → AfterOk (IsContext parsed) (
          compress bytes clone summarize parsed
            (memory_messages parsed.memory_entries)
            (build_units parsed.messages)
            kept
            omitted)
  unfolding compress
  compress-IsContext parsed kept omitted all =
      ensure-AfterOk (not (is_none bytes clone summarize omitted)) context_budget_exceeded _
        (λ some_.
          bind-AfterOk
            (run_summarizer bytes clone summarize summarize (flatten omitted)
              parsed.max_summary_bytes)
            _
            (λ summary e.
              let final =
                memory_messages parsed.memory_entries
                ++ (summary_message summary
                    ∷ flatten (filter (is_kept kept) (build_units parsed.messages))) in
              ensure-AfterOk (accepts bytes clone summarize final) invalid_messages _ (λ valid.
                ensure-AfterOk (leb (bytes final) parsed.max_context_bytes) context_budget_exceeded
                  _
                  (λ fits. bind-AfterOk (cloned (clone final)) _ (λ copied c. ok-AfterOk _ (record {
                    fits = leb→le (bytes final) parsed.max_context_bytes fits;
                    shape = inr (record {
                      kept = kept;
                      summary = summary;
                      all_units = flatten-build_units parsed.messages;
                      guarded = build_units-Guards parsed.messages;
                      final = final;
                      shape = refl;
                      copied = AfterOk-ok (cloned-holds (clone final)) c;
                      counted = refl;
                      valid = valid;
                      counts = omega (arith, all);
                    });
                  }))))))

  shrink-IsContext :
      (parsed : Parsed)
      → AfterOk (IsContext parsed) (
          shrink bytes clone summarize parsed
            (memory_messages parsed.memory_entries)
            (build_units parsed.messages))
  unfolding shrink
  shrink-IsContext parsed =
      let memory = memory_messages parsed.memory_entries in
      let units = build_units parsed.messages in
      let overhead = bytes (summary_message "" ∷ []) in
      let loose = filter is_compressible units in
      let selected =
        select_units bytes clone summarize (parsed.max_context_bytes - overhead) memory units
          (backwards loose []) [] [] in
      ensure-AfterOk
        (leb (bytes (memory ++ flatten (filter (λ unit. unit.is_protected) units)) + overhead)
          parsed.max_context_bytes)
        context_budget_exceeded _
        (λ room.
          ensure-AfterOk (not (is_none bytes clone summarize loose)) context_budget_exceeded _
            (λ any. compress-IsContext parsed selected.0 selected.1 (
              select_units-all bytes clone summarize (parsed.max_context_bytes - overhead) memory
                parsed.messages)))

  whole-IsContext :
      (parsed : Parsed)
      → leb
          (bytes (memory_messages parsed.memory_entries ++ parsed.messages))
          parsed.max_context_bytes
        ≡ true
      → AfterOk (IsContext parsed) (
          whole bytes clone summarize parsed
            (memory_messages parsed.memory_entries ++ parsed.messages))
  unfolding whole
  whole-IsContext parsed fits =
      let assembled = memory_messages parsed.memory_entries ++ parsed.messages in
      bind-AfterOk (cloned (clone assembled)) _ (λ copied c. ok-AfterOk _ (record {
        fits = leb→le (bytes assembled) parsed.max_context_bytes fits;
        shape = inl (record {
          copied = AfterOk-ok (cloned-holds (clone assembled)) c;
          counted = refl;
          nothing_omitted = refl;
        });
      }))

  assemble-IsContext :
      (parsed : Parsed) → AfterOk (IsContext parsed) (assemble bytes clone summarize parsed)
  unfolding assemble
  assemble-IsContext parsed =
      elim (Bool-cases (
        leb (bytes (memory_messages parsed.memory_entries ++ parsed.messages))
          parsed.max_context_bytes)) [
            | inl fits ↦ rw fits (whole-IsContext parsed fits)
            | inr over ↦ rw over (shrink-IsContext parsed)
          ]

  -- What buildContext resolves with.
  pub record IsBuilt (options : Value) (result : BuildContextResult) : Type 0 where
    pub parsed : Parsed
    pub accepted : parse_build_options clone options ≡ ok parsed
    pub context : IsContext parsed result

  -- A context that is built, whatever the options, the summarizer and the signal, fits the budget of
  -- its options: its size, which is that of the messages it copies, is at most maxContextBytes. It is
  -- the memory and the whole history; or it is the memory, a summary and units of the history, as
  -- buildUnits makes them and in their order, where all units together are the history, a unit that
  -- is left out holds no system message and begins before the last user message, the messages kept
  -- and the count of those left out add up to the history, and the messages are validated again.
  pub build_context-IsBuilt :
      (is_aborted : Bool) (options : Value)
      → AfterOk (IsBuilt options) (build_context bytes clone summarize is_aborted options)
  unfolding build_context
  build_context-IsBuilt is_aborted options =
      bind-AfterOk (parse_build_options clone options) _ (λ parsed e.
        ensure-AfterOk (not is_aborted) aborted _ (λ live.
          AfterOk-mono (assemble bytes clone summarize parsed) (assemble-IsContext parsed)
            (λ result c. record { parsed = parsed; accepted = e; context = c })))
