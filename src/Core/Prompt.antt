-- ===== src/Core/Prompt.antt =====
-- runPrompt of internal/core/autopilot.go: what an agent is asked to do.
use buildbee.Base.{
  Bool, true, not, ◌&&◌, Option, none, some, List, [], ◌∷◌, ◌++◌, keep, drop, length, ◌-◌, is_empty,
  if◌then◌else◌,
}
use buildbee.Text.{Text, bytes, text_eq, has_prefix}
use buildbee.Models.Status.{RunKind, plan, build, review, merge, same_kind}
use buildbee.Models.Records.{Project, Member, Task, Handoff}
use buildbee.Core.Thread.{newline, blank_line}

-- botWork
pub record BotWork : Type 0 where
  pub mine : Text
  pub others : List Text

-- strings.Contains
unfoldable pub contains_text : Text → Text → Bool
unfolding has_prefix
contains_text [] p = is_empty p
contains_text (c ∷ s) p = if has_prefix (c ∷ s) p then true else contains_text s p

unfoldable pub plan_ask : Text
plan_ask =
    bytes "You are planning, not changing code. Read the Task and the repository in your "
    ++ bytes "working directory, but do not modify any file. Reply with a short plan for the "
    ++ bytes "Builder: what to change, where, and how to check it. If the Task is unclear, say "
    ++ bytes "exactly what is missing."
    ++ blank_line

unfoldable pub build_ask : Text → Text
build_ask mine =
    bytes "Implement the Task in the repository in your working directory. Keep the change "
    ++ bytes "focused and run the project's tests or checks if it has any. You may commit; "
    ++ bytes "anything left uncommitted is committed for you. Do not push: BuildBee pushes the "
    ++ bytes "branch. End with a short summary of what you changed and how you checked it."
    ++ blank_line
    ++ (if is_empty mine
        then []
        else bytes "You are continuing your branch "
          ++ mine
          ++ bytes "; your earlier work is already checked out."
          ++ blank_line)

unfoldable pub review_ask : Text → Text → Text
review_ask mine base =
    bytes "You are reviewing the Builder's work on branch "
    ++ mine
    ++ bytes ", which is checked out in your working directory. Compare it with "
    ++ base
    ++ bytes " (for example `git diff "
    ++ base
    ++ bytes "...HEAD`). Check correctness, tests and security. Do not modify any file. End "
    ++ bytes "your reply with one line that is exactly `VERDICT: APPROVE` or `VERDICT: "
    ++ bytes "REQUEST_CHANGES`, after your reasons."
    ++ blank_line

-- The `switch` on the kind of Run.
unfoldable pub kind_ask : RunKind → Text → Text → Text
kind_ask plan mine base = plan_ask
kind_ask build mine base = build_ask mine
kind_ask review mine base = review_ask mine base
kind_ask merge mine base = []

abbrev other_line : Text → Text
other_line o = bytes "- " ++ o ++ newline

unfoldable pub lines_of : List Text → Text
lines_of [] = []
lines_of (o ∷ rest) = other_line o ++ lines_of rest

unfoldable pub others_text : Text → List Text → Text
others_text base others =
    newline
    ++ bytes "Other Bots are on this too, each on its own branch:"
    ++ newline
    ++ lines_of others
    ++ bytes "Read their work with `git diff "
    ++ base
    ++ bytes "...origin/<branch>` before you finish, and say plainly where you agree, where "
    ++ bytes "you differ and why yours is better."
    ++ newline

abbrev guidance : Option Project → Text
guidance none = []
guidance (some p) =
    if is_empty p.instructions
    then []
    else bytes "Project guidance:" ++ newline ++ p.instructions ++ blank_line

abbrev standing : Option Member → Text
standing none = []
standing (some b) = if is_empty b.instructions then [] else b.instructions ++ blank_line

abbrev base_branch : Option Project → Text
base_branch none = bytes "the default branch"
base_branch (some p) =
    if is_empty p.default_branch
    then bytes "the default branch"
    else bytes "origin/" ++ p.default_branch

abbrev for_bot : Option Member → Handoff → Bool
for_bot none h = true
for_bot (some b) h = text_eq h.to_member_id b.id

-- A note that is worth saying: to this Bot, and not in the thread already.
abbrev worth_saying : Option Member → Text → Handoff → Bool
worth_saying bot convo h =
    not (is_empty h.note) && for_bot bot h && not (contains_text convo h.note)

-- mine[len(mine)-3:], all of it when there are fewer
abbrev last_three : List Handoff → List Handoff
last_three hs = drop (length hs - 3) hs

unfoldable pub note_lines : List Handoff → Text
note_lines [] = []
note_lines (h ∷ rest) = newline ++ bytes "Handoff note: " ++ h.note ++ newline ++ note_lines rest

-- runPrompt
unfoldable pub run_prompt :
    Option Project → Option Member → Task → List Handoff → Text → BotWork → RunKind → Text
unfolding keep
run_prompt p bot task notes convo bw kind =
    guidance p
    ++ standing bot
    ++ kind_ask kind bw.mine (base_branch p)
    ++ bytes "Asked: "
    ++ task.title
    ++ blank_line
    ++ (if not (is_empty task.body) && not (contains_text convo task.body)
        then task.body ++ blank_line
        else [])
    ++ convo
    ++ note_lines (last_three (keep (worth_saying bot convo) notes))
    ++ (if not (is_empty bw.others) && not (same_kind kind merge)
        then others_text (base_branch p) bw.others
        else [])
