-- ===== src/Models/Mentions.antt =====
-- MentionedBots and MentionedPeople of internal/models/models.go, and mentionTitle of
-- internal/core/tasks.go: whom a message names by @Name. `lower` is strings.ToLower, and `letter`
-- tells the code points of \p{L} and \p{N}.
use buildbee.Base.{
  ℕ, zero, suc, ◌+◌, ◌-◌, ◌*◌, Bool, true, false, not, ◌&&◌, ◌||◌, List, [], ◌∷◌, ◌++◌, reverse,
  exists, length, is_empty, leb, ◌==◌, if◌then◌else◌,
}
use buildbee.Text.{Text, bytes, text_eq, trim_space, has_prefix, truncate}
use buildbee.Models.Verdict.{first_line}
use buildbee.Models.Members.{is_nil}
use buildbee.Models.Records.{Member, MemberKind, human, bot}

-- The ASCII characters of [\p{L}\p{N}_.-].
abbrev ascii_word : ℕ → Bool
ascii_word c =
    (leb b'a' c && leb c b'z')
    || (leb b'A' c && leb c b'Z')
    || (leb b'0' c && leb c b'9')
    || (c == b'_')
    || (c == b'.')
    || (c == b'-')

abbrev follows : ℕ → Bool
follows c = leb 0x80 c && leb c 0xBF

-- The width in bytes of the character of a name that a text begins with, 0 if there is none.
unfoldable pub word_width : (ℕ → Bool) → Text → ℕ
word_width letter [] = 0
word_width letter (a ∷ []) = if ascii_word a then 1 else 0
word_width letter (a ∷ b ∷ []) =
    if ascii_word a
    then 1
    else if leb 0xC2 a && leb a 0xDF && follows b && letter ((a - 0xC0) * 64 + (b - 0x80))
    then 2
    else 0
word_width letter (a ∷ b ∷ c ∷ []) =
    if ascii_word a
    then 1
    else if leb 0xC2 a && leb a 0xDF && follows b && letter ((a - 0xC0) * 64 + (b - 0x80))
    then 2
    else if leb 0xE0 a
        && leb a 0xEF
        && follows b
        && follows c
        && letter ((a - 0xE0) * 4096 + (b - 0x80) * 64 + (c - 0x80))
    then 3
    else 0
word_width letter (a ∷ b ∷ c ∷ d ∷ _) =
    if ascii_word a
    then 1
    else if leb 0xC2 a && leb a 0xDF && follows b && letter ((a - 0xC0) * 64 + (b - 0x80))
    then 2
    else if leb 0xE0 a
        && leb a 0xEF
        && follows b
        && follows c
        && letter ((a - 0xE0) * 4096 + (b - 0x80) * 64 + (c - 0x80))
    then 3
    else if leb 0xF0 a
        && leb a 0xF4
        && follows b
        && follows c
        && follows d
        && letter ((a - 0xF0) * 262144 + (b - 0x80) * 4096 + (c - 0x80) * 64 + (d - 0x80))
    then 4
    else 0

-- The name that a text begins with; `inside` bytes belong to a character of it that is read already.
unfoldable pub word : (ℕ → Bool) → ℕ → Text → Text
unfolding word_width
word letter inside [] = []
word letter (suc k) (c ∷ s) = c ∷ word letter k s
word letter zero (c ∷ s) =
    let rest = word letter (word_width letter (c ∷ s) - 1) s in
    if word_width letter (c ∷ s) == 0 then [] else c ∷ rest

-- mentionToken.FindAllStringSubmatch: the names that follow an @.
unfoldable pub mention_tokens : (ℕ → Bool) → Text → List Text
unfolding word
mention_tokens letter [] = []
mention_tokens letter (c ∷ s) =
    let rest = mention_tokens letter s in
    if (c == b'@') && not (is_empty (word letter 0 s)) then word letter 0 s ∷ rest else rest

abbrev drop_dots : Text → Text
drop_dots [] = []
drop_dots (c ∷ s) = if c == b'.' then drop_dots s else c ∷ s

-- strings.TrimRight(s, ".")
unfoldable pub trim_dots : Text → Text
trim_dots s = reverse (drop_dots (reverse s))

-- strings.Contains(s, w)
unfoldable pub holds_text : Text → Text → Bool
unfolding has_prefix
holds_text [] w = is_empty w
holds_text (c ∷ s) w = has_prefix (c ∷ s) w || holds_text s w

abbrev has_space : Text → Bool
has_space s = exists (λ c. (c == 32) || (c == 9)) s

module _ (lower : Text → Text) (letter : ℕ → Bool) where
  -- Is the lower-case name wanted?
  unfoldable pub wanted : Text → Text → Bool
  unfolding exists mention_tokens trim_dots
  wanted body n =
      exists (λ t. text_eq (lower t) n || text_eq (lower (trim_dots t)) n)
        (mention_tokens letter body)

  -- `named`
  unfoldable pub named_in : Text → Text → Bool
  unfolding exists holds_text
  named_in body name =
      let n = lower (trim_space name) in
      if is_empty n
      then false
      else if has_space n
      then holds_text (lower body) (b'@' ∷ n)
      else wanted body n

  abbrev is_bot : MemberKind → Bool
  is_bot human = false
  is_bot bot = true

  -- Does the message name the Member, of this kind?
  abbrev pub mentions : Text → Bool → Member → Bool
  mentions body bots m =
      if bots
      then is_bot m.kind
        && is_nil m.left_at
        && (named_in body m.display_name || named_in body m.role)
      else not (is_bot m.kind) && named_in body m.display_name

  -- `mentioned`, whose result holds no Member twice.
  unfoldable pub mentioned : Text → Bool → List Text → List Member → List Member
  unfolding exists named_in
  mentioned body bots seen [] = []
  mentioned body bots seen (m ∷ rest) =
      let takes = not (exists (text_eq m.id) seen) && mentions body bots m in
      let others = mentioned body bots (if takes then m.id ∷ seen else seen) rest in
      if takes then m ∷ others else others

  -- MentionedBots
  unfoldable pub mentioned_bots : Text → List Member → List Member
  unfolding mentioned exists
  mentioned_bots body members =
      if exists (λ c. c == b'@') body then mentioned body true [] members else []

  -- MentionedPeople
  unfoldable pub mentioned_people : Text → List Member → List Member
  unfolding mentioned exists
  mentioned_people body members =
      if exists (λ c. c == b'@') body then mentioned body false [] members else []

-- [\s,:;]
abbrev separates : ℕ → Bool
separates c =
    (c == 9)
    || (c == 10)
    || (c == 12)
    || (c == 13)
    || (c == 32)
    || (c == b',')
    || (c == b':')
    || (c == b';')

-- What leadingMentions leaves of a text. The first number says how many bytes of a name are still to
-- be dropped; separators are dropped once a mention has been.
unfoldable pub drop_mentions : (ℕ → Bool) → ℕ → Bool → Text → Text
unfolding word
drop_mentions letter inside met [] = []
drop_mentions letter (suc k) met (c ∷ s) = drop_mentions letter k met s
drop_mentions letter zero met (c ∷ s) =
    let name = word letter 0 s in
    let starts = (c == b'@') && not (is_empty name) in
    let rest = drop_mentions letter (if starts then length name else 0) true s in
    if starts || (met && separates c) then rest else c ∷ s

-- mentionTitle
unfoldable pub mention_title : (ℕ → Bool) → Text → Text → Text
unfolding drop_mentions
mention_title letter body channel =
    let t = trim_space (drop_mentions letter 0 false (first_line body)) in
    truncate (if is_empty t then bytes "Request from #" ++ channel else t) 120
