-- ===== src/Routing/Tests.antt =====
-- Concrete runs of the routing hint.
use codex_auth_broker.Prelude.Text.{Bytes, beq, codes, trim_space}
use codex_auth_broker.Routing.{build_codex_routing_hint}
use codex_auth_broker.Routing.Hint.{Carries, build_codex_routing_hint-Carries}
use codex_auth_broker.Prelude.{[], refl, ◌≡◌, ◌⊎◌}

abbrev hint : Bytes
hint = build_codex_routing_hint (codes "gpt-5.5 ") (codes "priority")

hint_run : hint ≡ codes "model=gpt-5.5;tier=priority"
unfolding build_codex_routing_hint beq trim_space
hint_run = refl

injected_run : build_codex_routing_hint (codes "gpt-5.5;tier=priority") [] ≡ []
unfolding build_codex_routing_hint beq trim_space
injected_run = refl

build_codex_routing_hint-Carries_example :
    (hint ≡ []) ⊎ Carries (trim_space (codes "gpt-5.5 ")) (trim_space (codes "priority")) hint
build_codex_routing_hint-Carries_example =
    build_codex_routing_hint-Carries (codes "gpt-5.5 ") (codes "priority")

abbrev client_hint : Bytes
client_hint = codes "model=gpt-5.5;tier=fast"
