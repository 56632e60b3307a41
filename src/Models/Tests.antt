-- ===== src/Models/Tests.antt =====
-- Concrete runs of the names of models and tiers.
use codex_auth_broker.Models.{
  cut_suffixes, has_suffix, last_index, normalize_factory_model, normalize_reasoning_effort, one_of,
  split_effort, trim_prefix,
}
use codex_auth_broker.Prelude.Text.{beq, codes, cut_prefix, to_lower, trim_space}
use codex_auth_broker.Prelude.Json.{Fields, end, field, str}
use codex_auth_broker.Prelude.{refl, ◌≡◌}

abbrev body : Fields
body = field (codes "serviceTier") (str (codes "Ultra-Fast")) end

factory_run :
    normalize_factory_model (codes "custom:GPT-5.5(High)") ≡ (codes "gpt-5.5", codes "high")
unfolding normalize_factory_model cut_prefix cut_suffixes has_suffix to_lower split_effort
    last_index trim_prefix trim_space beq normalize_reasoning_effort one_of
factory_run = refl
