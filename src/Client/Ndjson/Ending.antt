-- ===== src/Client/Ndjson/Ending.antt =====
-- The events that the reader yields, against how it ends.
use agent_routebench.Prelude.{
  ℕ, ◌+◌, ◌≡◌, refl, Bool, true, false, not, ◌&&◌, ◌||◌, String, List, [], ◌∷◌, ◌++◌, Option, none,
  some, ltb, length, Outcome, ok, err, if◌then◌else◌, arith, Bool-cases, inl, inr, ◌⊎◌, sym, ◌∙◌,
  ap,
}
use Prim.Native.String.{len, ◌++◌ as append}
use agent_routebench.Contracts.Value.{Value}
use agent_routebench.Generator.Rules.{is_open, is_sealed, is_nil}
use agent_routebench.Adapters.Sse.{TextDecoder, is_empty}
use agent_routebench.Client.Ndjson.{
  ClientError, api_protocol_error, stream_too_large, NdjsonLimits, read_limits, is_terminal,
  split_lines, has_line_end, without_return, Run, throws, continue_with, yields, Reads, chunk,
  no_bytes, done, rejected, cancelled, Reader, parsed, read_line, read_lines, read_buffer,
  read_text, read_chunk, at_end, read_all, parse_ndjson_stream,
}

-- Whether a terminal event has come, after some more events; none, once one follows it.
abbrev status : Bool → List Value → Option Bool
status b [] = some b
status true (event ∷ events) = none
status false (event ∷ events) = status (is_terminal event) events

-- The events of a run that begins with a terminal event seen or not.
abbrev Follows : {A : Type 0} → (A → Bool) → Bool → List Value → Outcome ClientError A → Type 0
Follows seen b events (ok a) = status b events ≡ some (seen a)
Follows seen b events (err code) = (last : Bool) × (status b events ≡ some last)

record Tracks {A : Type 0} (seen : A → Bool) (b : Bool) (run : Run A) : Type 0 where
  follows : Follows seen b run.events run.outcome

status-append :
    (b c : Bool) (xs ys : List Value) → status b xs ≡ some c → status b (xs ++ ys) ≡ status c ys
status-append b c [] ys h = let same : b ≡ c = cc in ap (λ d. status d ys) same
status-append true c (x ∷ xs) ys h = absurd (cc)
status-append false c (x ∷ xs) ys h = status-append (is_terminal x) c xs ys h

throws-Tracks :
    {A : Type 0} (seen : A → Bool) (b : Bool) (code : ClientError) → Tracks seen b (throws code)
throws-Tracks seen b code = record { follows = (b, refl) }

Follows-append :
    {A : Type 0} (seen : A → Bool) (b c : Bool) (xs ys : List Value) (o : Outcome ClientError A)
    → status b xs ≡ some c
    → Follows seen c ys o
    → Follows seen b (xs ++ ys) o
Follows-append seen b c xs ys (ok a) h k = status-append b c xs ys h ∙ k
Follows-append seen b c xs ys (err code) h k = (k.0, status-append b c xs ys h ∙ k.1)

continue-Tracks :
    {A B : Type 0} (seen : A → Bool) (seen_later : B → Bool) (b : Bool) (events : List Value)
    (o : Outcome ClientError A) (next : A → Run B)
    → Follows seen b events o
    → ((a : A) → Tracks seen_later (seen a) (next a))
    → Tracks seen_later b (continue_with events o next)
continue-Tracks seen seen_later b events (err code) next h k = record { follows = h }
continue-Tracks seen seen_later b events (ok a) next h k = record {
  follows =
      Follows-append seen_later b (seen a) events (next a).events (next a).outcome h (k a).follows;
}

if-Tracks :
    {A : Type 0} {seen : A → Bool} {b : Bool} (test : Bool) {x y : Run A}
    → Tracks seen b x
    → Tracks seen b y
    → Tracks seen b (if test then x else y)
if-Tracks true h k = h
if-Tracks false h k = k

abbrev itself : Bool → Bool
itself b = b

module _ (parse : String → Option Value) (decoder : TextDecoder) (limits : NdjsonLimits) where
  yields-Tracks :
      (o : Outcome ClientError Value) (next : Bool → Run Bool)
      → ((b : Bool) → Tracks itself b (next b))
      → Tracks itself false (yields o next)
  yields-Tracks (err code) next h = throws-Tracks itself false code
  yields-Tracks (ok event) next h = record {
    follows =
        Follows-append itself false (is_terminal event) (event ∷ [])
          (next (is_terminal event)).events (next (is_terminal event)).outcome refl
          (h (is_terminal event)).follows;
  }

  read_line-Tracks :
      (b : Bool) (line : String) (next : Bool → Run Bool)
      → ((c : Bool) → Tracks itself c (next c))
      → Tracks itself b (read_line parse decoder limits b line next)
  unfolding read_line
  read_line-Tracks true line next h = if-Tracks (is_empty line) (h true) (
      if-Tracks (ltb limits.max_line_bytes (len line)) (throws-Tracks itself true stream_too_large)
        (throws-Tracks itself true api_protocol_error))
  read_line-Tracks false line next h = if-Tracks (is_empty line) (h false) (
      if-Tracks (ltb limits.max_line_bytes (len line)) (throws-Tracks itself false stream_too_large)
        (yields-Tracks (parsed parse decoder limits (parse line)) next h))

  read_lines-Tracks :
      (b : Bool) (lines : List String) → Tracks itself b (read_lines parse decoder limits b lines)
  unfolding read_lines
  read_lines-Tracks b [] = record { follows = refl }
  read_lines-Tracks b (line ∷ lines) =
      read_line-Tracks b (without_return line) (λ c. read_lines parse decoder limits c lines)
        (λ c. read_lines-Tracks c lines)

  abbrev has_seen : Reader → Bool
  has_seen reader = reader.terminated

  read_buffer-Tracks :
      (reader : Reader) (buffer : String) (bytes : List ℕ)
      → Tracks has_seen reader.terminated (read_buffer parse decoder limits reader buffer bytes)
  unfolding read_buffer
  read_buffer-Tracks reader buffer bytes =
      if-Tracks (ltb limits.max_line_bytes (len buffer) && not (has_line_end buffer))
        (throws-Tracks has_seen reader.terminated stream_too_large)
        (if-Tracks (ltb limits.max_line_bytes (len (split_lines buffer).1))
          (throws-Tracks has_seen reader.terminated stream_too_large)
          (continue-Tracks itself has_seen reader.terminated
            (read_lines parse decoder limits reader.terminated (split_lines buffer).0).events
            (read_lines parse decoder limits reader.terminated (split_lines buffer).0).outcome _
            (read_lines-Tracks reader.terminated (split_lines buffer).0).follows
            (λ b. record { follows = refl })))

  read_text-Tracks :
      (reader : Reader) (o : Option String) (bytes : List ℕ)
      → Tracks has_seen reader.terminated (read_text parse decoder limits reader o bytes)
  read_text-Tracks reader none bytes = throws-Tracks has_seen reader.terminated api_protocol_error
  read_text-Tracks reader (some text) bytes =
      read_buffer-Tracks reader (append reader.buffer text) bytes

  read_chunk-Tracks :
      (reader : Reader) (bytes : List ℕ)
      → Tracks has_seen reader.terminated (read_chunk parse decoder limits reader bytes)
  unfolding read_chunk
  read_chunk-Tracks reader bytes =
      if-Tracks (ltb limits.max_total_bytes (reader.total_bytes + length bytes))
        (throws-Tracks has_seen reader.terminated stream_too_large)
        (read_text-Tracks reader (decoder.decode reader.fed bytes) bytes)

  abbrev ended : Unit {0} → Bool
  ended u = true

  at_end-Tracks :
      (reader : Reader) → Follows ended reader.terminated [] (at_end parse decoder limits reader)
  at_end-Tracks reader = elim (Bool-cases (not (decoder.flushes reader.fed))) [
    | inl dangling ↦ rw dangling (reader.terminated, refl)
    | inr whole ↦ elim (Bool-cases (not (is_empty reader.buffer) || not reader.terminated)) [
      | inl early ↦ rw (whole, early) (reader.terminated, refl)
      | inr in_time ↦
          let seen : reader.terminated ≡ true = ground arith in rw (whole, in_time) (ap some seen)
    ]
  ]

  read_all-Tracks :
      (reader : Reader) (reads : Reads)
      → Tracks ended reader.terminated (read_all parse decoder limits reader reads)
  unfolding read_all
  read_all-Tracks reader (chunk bytes rest) =
      continue-Tracks has_seen ended reader.terminated
        (read_chunk parse decoder limits reader bytes).events
        (read_chunk parse decoder limits reader bytes).outcome
        (λ later. read_all parse decoder limits later rest) (read_chunk-Tracks reader bytes).follows
        (λ later. read_all-Tracks later rest)
  read_all-Tracks reader no_bytes = throws-Tracks ended reader.terminated api_protocol_error
  read_all-Tracks reader done = record { follows = at_end-Tracks reader }
  read_all-Tracks reader rejected = throws-Tracks ended reader.terminated ClientError.read_failed
  read_all-Tracks reader cancelled = throws-Tracks ended reader.terminated ClientError.aborted

after-terminal :
    (events : List Value) (c : Bool)
    → status true events ≡ some c
    → (is_nil events ≡ true) × (true ≡ c)
after-terminal [] c h = (refl, cc)
after-terminal (event ∷ events) c h = absurd (cc)

sealed-status :
    (events : List Value) → status false events ≡ some true → is_sealed is_terminal events ≡ true
sealed-status [] h = absurd (cc)
sealed-status (event ∷ events) h = elim (Bool-cases (is_terminal event)) [
  | inl last ↦ rw last (after-terminal events true (ap (λ b. status b events) (sym last) ∙ h)).0
  | inr going ↦ rw going (sealed-status events (ap (λ b. status b events) (sym going) ∙ h))
]

open-status :
    (events : List Value) → status false events ≡ some false → is_open is_terminal events ≡ true
open-status [] h = refl
open-status (event ∷ events) h = elim (Bool-cases (is_terminal event)) [
  | inl last ↦
      let both = after-terminal events false (ap (λ b. status b events) (sym last) ∙ h) in
      absurd (ground (arith, both.1))
  | inr going ↦ rw going (open-status events (ap (λ b. status b events) (sym going) ∙ h))
]

-- A run that returns has yielded one terminal event, at last; one that throws, at most that.
abbrev pub EndsProperly : List Value → Outcome ClientError (Unit {0}) → Type 0
EndsProperly events (ok u) = is_sealed is_terminal events ≡ true
EndsProperly events (err code) =
    (is_open is_terminal events ≡ true) ⊎ (is_sealed is_terminal events ≡ true)

Follows-EndsProperly :
    (events : List Value) (outcome : Outcome ClientError (Unit {0}))
    → Follows (λ u. true) false events outcome
    → EndsProperly events outcome
Follows-EndsProperly events (ok u) h = sealed-status events h
Follows-EndsProperly events (err code) (true, h) = inr (sealed-status events h)
Follows-EndsProperly events (err code) (false, h) = inl (open-status events h)

-- A truncated answer is never taken for a whole one: a run of the reader that returns has yielded
-- exactly one terminal event (`completed` or `error`), which is the last; and a run that throws has
-- yielded no terminal event, or one at last and nothing behind it. This is so for every sequence of
-- chunks, ends, failures and aborts, and for all limits.
pub parse_ndjson_stream-EndsProperly :
    (parse : String → Option Value) (decoder : TextDecoder) (line total : Value) (reads : Reads)
    → (let run = parse_ndjson_stream parse decoder line total reads in
        EndsProperly run.events run.outcome)
unfolding parse_ndjson_stream
parse_ndjson_stream-EndsProperly parse decoder line total reads = start (read_limits line total)
  where
    start :
        (o : Outcome ClientError NdjsonLimits)
        → (let run = continue_with [] o (λ limits.
              read_all parse decoder limits
                (record { buffer = ""; total_bytes = 0; terminated = false; fed = [] })
                reads) in
            EndsProperly run.events run.outcome)
    start (err code) = inl refl
    start (ok limits) =
        let reader : Reader = record {
          buffer = "";
          total_bytes = 0;
          terminated = false;
          fed = [];
        } in
        let run = read_all parse decoder limits reader reads in
        Follows-EndsProperly run.events run.outcome
          (read_all-Tracks parse decoder limits reader reads).follows
