-- ===== src/Chat/Stream/Calls.antt =====
-- chat_completions.go, the role and the calls of a stream: `ensureRole`, `ensureTool` and
-- `writeToolArguments` write what the protocol allows.
use codex_auth_broker.Chat.Stream.Protocol.{Transcript, calls, continues, fresh, opened, opens}
use codex_auth_broker.Chat.Stream.Writes.{
  Goes, Goes-if, Goes-on_success, Goes-write_frame, IsFresh, IsOpen, IsReady, Runs,
  settle-IsSettled, write_choice-Goes,
}
use codex_auth_broker.Chat.Stream.{
  StreamTool, Translator, call, call_arguments, choice, chunk, emitted, find_tool, identity, role,
  set_emitted, settle,
}
use codex_auth_broker.Chat.Stream.Methods.{
  add_tool, ensure_role, ensure_tool, finish_call, key_of, send_arguments, send_rest, write_choice,
}
use codex_auth_broker.Chat.{Moment, chat_payload_string, Fields}
use codex_auth_broker.Body.{string_field, value_or}
use codex_auth_broker.Prelude.{
  All, All-append, Bool, Bool-cases, List, Option, [], arith, inr, length, length-append, none, not,
  refl, some, suc, true, ℕ, ◌&&◌, ◌++◌, ◌<◌, ◌∷◌, ◌≡◌, inl,
}
use codex_auth_broker.Prelude.Int.{ℤ}
use codex_auth_broker.Prelude.Text.{Bytes, beq, codes}

-- The first chunk, if the translator is fresh.
role-Goes :
    (delivers : ℕ → Bool) (now : Moment) (t : Translator)
    → IsFresh t
    → Goes delivers IsOpen (write_choice delivers now role none (record t { role_sent = true }))
unfolding write_choice settle
role-Goes delivers now t h =
    let t' = settle now t in
    Goes-write_frame delivers IsOpen
      (chunk (identity t') t.service_tier (choice role none t.include_usage))
      (record t { role_sent = true; id = t'.id; model = t'.model }) fresh (opened (identity t') 0)
      (rw h.unsent Transcript.silent) (opens (identity t') t.service_tier t.include_usage)
      (λ said. record {
        running = h.running;
        is_open = refl;
        settled = settle-IsSettled now t;
        numbered = rw h.no_tools tt;
        noticed = rw h.no_tools h.none_seen;
        spoken = rw (h.no_tools, length) said;
      })

pub ensure_role-Goes :
    (delivers : ℕ → Bool) (now : Moment) (t : Translator)
    → Runs t
    → Goes delivers IsOpen (ensure_role delivers now t)
unfolding ensure_role
ensure_role-Goes delivers now t (inl h) = rw h.unopened (role-Goes delivers now t h)
ensure_role-Goes delivers now t (inr h) = simp h.is_open h

indexes_grow :
    (n : ℕ) (tools : List StreamTool)
    → All (λ tool. tool.index < n) tools
    → All (λ tool. tool.index < suc n) tools
indexes_grow n [] h = tt
indexes_grow n (tool ∷ tools) h = (omega arith, indexes_grow n tools h.1)

length-snoc :
    (tools : List StreamTool) (tool : StreamTool)
    → length (tools ++ (tool ∷ [])) ≡ suc (length tools)
length-snoc tools tool = omega (arith, length-append tools (tool ∷ []))

-- A translator with one more tool has yet to announce it.
added-IsReady :
    (t : Translator) (tool : StreamTool)
    → IsOpen t
    → tool.index ≡ length t.tools
    → IsReady (length t.tools) (record t { tools = t.tools ++ (tool ∷ []); tool_seen = true })
unfolding settle
added-IsReady t tool h e =
    let longer = length-snoc t.tools tool in
    record {
      running = h.running;
      is_open = h.is_open;
      settled = h.settled;
      numbered = rw longer (
          All-append (λ x. x.index < suc (length t.tools)) t.tools (tool ∷ [])
            (indexes_grow (length t.tools) t.tools h.numbered) (omega arith, tt));
      noticed = ground (arith, longer);
      spoken = h.spoken;
    }

add_tool-Goes :
    (delivers : ℕ → Bool) (now : Moment) (key : Bytes) (item : Fields) (o : Option StreamTool)
    (t : Translator)
    → IsOpen t
    → Goes delivers IsOpen (add_tool delivers now key item o t)
unfolding add_tool
add_tool-Goes delivers now key item (some existing) t h = h
add_tool-Goes delivers now key item none t h =
    let arguments = chat_payload_string item (codes "arguments") in
    let tool : StreamTool = record {
      key = key;
      index = length t.tools;
      arguments_emitted = not (beq arguments []);
    } in
    let id = value_or (string_field item (codes "call_id")) (string_field item (codes "id")) in
    let name = string_field item (codes "name") in
    write_choice-Goes delivers now (call (length t.tools) id name arguments) (length t.tools)
      (record t { tools = t.tools ++ (tool ∷ []); tool_seen = true }) (added-IsReady t tool h refl)
      (λ i tier u.
        rw (length-snoc t.tools tool) (calls i (length t.tools) tier id name arguments u))

pub ensure_tool-Goes :
    (delivers : ℕ → Bool) (now : Moment) (item : Fields) (index : ℤ) (t : Translator)
    → Runs t
    → Goes delivers IsOpen (ensure_tool delivers now item index t)
unfolding ensure_tool
ensure_tool-Goes delivers now item index t h =
    Goes-on_success delivers IsOpen IsOpen (ensure_role delivers now t) _
      (ensure_role-Goes delivers now t h)
      (λ t1 h1. add_tool-Goes delivers now (key_of delivers item index) item _ t1 h1)

length-set_emitted :
    (key : Bytes) (tools : List StreamTool) → length (set_emitted key tools) ≡ length tools
unfolding set_emitted
length-set_emitted key [] = refl
length-set_emitted key (tool ∷ tools) = ground (arith, length-set_emitted key tools)

set_emitted_numbered :
    (n : ℕ) (key : Bytes) (tools : List StreamTool)
    → All (λ tool. tool.index < n) tools
    → All (λ tool. tool.index < n) (set_emitted key tools)
unfolding set_emitted
set_emitted_numbered n key [] h = tt
set_emitted_numbered n key (tool ∷ tools) h = elim (Bool-cases (beq tool.key key)) [
  | inl e ↦ rw (e, set_emitted) (h.0, set_emitted_numbered n key tools h.1)
  | inr e ↦ rw (e, set_emitted) (h.0, set_emitted_numbered n key tools h.1)
]

emitted-IsOpen : (key : Bytes) (t : Translator) → IsOpen t → IsOpen (emitted key t)
unfolding settle
emitted-IsOpen key t h =
    let same = length-set_emitted key t.tools in
    record {
      running = h.running;
      is_open = h.is_open;
      settled = h.settled;
      numbered = rw same (set_emitted_numbered (length t.tools) key t.tools h.numbered);
      noticed = rw same h.noticed;
      spoken = rw same h.spoken;
    }

find_tool_numbered :
    (n : ℕ) (key : Bytes) (tools : List StreamTool) (tool : StreamTool)
    → All (λ tool. tool.index < n) tools
    → find_tool key tools ≡ some tool
    → tool.index < n
unfolding find_tool
find_tool_numbered n key [] tool h e = cc
find_tool_numbered n key (x ∷ tools) tool h e = elim (Bool-cases (beq x.key key)) [
  | inl same ↦ let hit : some x ≡ some tool = rw same at e in ground (arith, h.0, hit)
  | inr other ↦ find_tool_numbered n key tools tool h.1 (rw other at e)
]

send_arguments-Goes :
    (delivers : ℕ → Bool) (now : Moment) (key arguments : Bytes) (o : Option StreamTool)
    (t : Translator)
    → IsOpen t
    → ((tool : StreamTool) → o ≡ some tool → tool.index < length t.tools)
    → Goes delivers IsOpen (send_arguments delivers now key arguments o t)
unfolding send_arguments
send_arguments-Goes delivers now key arguments none t h lt = h
send_arguments-Goes delivers now key arguments (some tool) t h lt =
    write_choice-Goes delivers now (call_arguments tool.index arguments)
      (length (set_emitted key t.tools)) (emitted key t) (emitted-IsOpen key t h)
      (λ i tier u.
        continues i _ tool.index tier arguments u
          (rw (length-set_emitted key t.tools) (lt tool refl)))

send_rest-Goes :
    (delivers : ℕ → Bool) (now : Moment) (key arguments : Bytes) (o : Option StreamTool)
    (t : Translator)
    → IsOpen t
    → ((tool : StreamTool) → o ≡ some tool → tool.index < length t.tools)
    → Goes delivers IsOpen (send_rest delivers now key arguments o t)
unfolding send_rest
send_rest-Goes delivers now key arguments none t h lt = h
send_rest-Goes delivers now key arguments (some tool) t h lt =
    Goes-if delivers IsOpen (not (beq arguments []) && not tool.arguments_emitted)
      (send_arguments delivers now key arguments (some tool) t) (t, none)
      (send_arguments-Goes delivers now key arguments (some tool) t h lt) h

-- Arguments for the tool that is found under a key.
pub found-Goes :
    (delivers : ℕ → Bool) (now : Moment) (key arguments : Bytes) (t : Translator)
    → IsOpen t
    → Goes delivers IsOpen (send_arguments delivers now key arguments (find_tool key t.tools) t)
found-Goes delivers now key arguments t h =
    send_arguments-Goes delivers now key arguments (find_tool key t.tools) t h
      (λ tool. find_tool_numbered (length t.tools) key t.tools tool h.numbered)

pub finish_call-Goes :
    (delivers : ℕ → Bool) (now : Moment) (item : Fields) (index : ℤ) (t : Translator)
    → Runs t
    → Goes delivers IsOpen (finish_call delivers now item index t)
unfolding finish_call
finish_call-Goes delivers now item index t h =
    Goes-on_success delivers IsOpen IsOpen (ensure_tool delivers now item index t) _
      (ensure_tool-Goes delivers now item index t h)
      (λ t1 h1.
        let key = key_of delivers item index in
        send_rest-Goes delivers now key (chat_payload_string item (codes "arguments"))
          (find_tool key t1.tools) t1 h1
          (λ tool. find_tool_numbered (length t1.tools) key t1.tools tool h1.numbered))
