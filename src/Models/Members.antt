-- ===== src/Models/Members.antt =====
-- MemberByRole and ValidAgent of internal/models/models.go.
use buildbee.Base.{
  Bool, true, false, ◌&&◌, Option, none, some, List, [], ◌∷◌, first, is_empty, if◌then◌else◌,
}
use buildbee.Text.{Text, bytes, text_eq, one_of, trim_space, to_lower}
use buildbee.Models.Records.{Member}

-- Is a pointer nil?
abbrev pub is_nil : {A : Type 0} → Option A → Bool
is_nil none = true
is_nil (some t) = false

-- MemberByRole
unfoldable pub member_by_role : List Member → Text → Option Member
unfolding first
member_by_role members role =
    first (λ m. text_eq (to_lower m.role) (to_lower (trim_space role)) && is_nil m.left_at) members

-- Agents
abbrev pub agents : List Text
agents =
    bytes "claude"
    ∷ bytes "grok"
    ∷ bytes "codex"
    ∷ bytes "opencode"
    ∷ bytes "goose"
    ∷ bytes "fake"
    ∷ []

-- ValidAgent
unfoldable pub valid_agent : Text → Bool
unfolding one_of
valid_agent a = if is_empty a then true else one_of a agents

-- HumanRole
unfoldable pub human_role : Text → Bool
unfolding one_of
human_role r = one_of r (bytes "owner" ∷ bytes "admin" ∷ bytes "member" ∷ [])

-- BotSeed
pub record BotSeed : Type 0 where
  pub name : Text
  pub role : Text
  pub instructions : Text

-- DefaultBots
abbrev pub default_bots : List BotSeed
default_bots =
    record {
      name = bytes "Scout";
      role = bytes "scout";
      instructions =
          bytes
            "You are Scout. You turn Tasks into clear, small plans and say when a Task is unclear.";
    }
    ∷ record {
      name = bytes "Builder";
      role = bytes "builder";
      instructions = bytes "You are Builder. You make focused, tested changes.";
    }
    ∷ record {
      name = bytes "Sentry";
      role = bytes "sentry";
      instructions =
          bytes
            "You are Sentry. You review changes for correctness, tests and security, and say exactly what must change.";
    }
    ∷ record {
      name = bytes "Pulse";
      role = bytes "pulse";
      instructions = bytes "You are Pulse. You open the Tasks a Project's Routines schedule.";
    }
    ∷ []
