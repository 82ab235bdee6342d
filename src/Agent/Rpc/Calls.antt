-- ===== src/Agent/Rpc/Calls.antt =====
-- Every call of a conn gets one response at most, and none waits once the reading has ended.
pub mod Pending
use buildbee.Base.{
  ℕ, suc, ◌+◌, ◌≤◌, ◌<◌, ◌≡◌, refl, sym, ap, ◌∙◌, subst, Bool, true, false, not, ◌&&◌, ◌||◌, Option,
  none, some, List, [], ◌∷◌, ◌++◌, arith, exists, count_if, All, length, is_empty, if◌then◌else◌,
  ◌==◌, ==_iff, ◌⊎◌, inl, inr, Bool-cases, Option-cases,
}
use buildbee.Text.{Text, bytes, text_eq, text_eq_iff}
use buildbee.Text.Decimal.{decimal, decimal-inj}
use buildbee.Models.Members.{is_nil}
use buildbee.Agent.Rpc.{
  Conn, Message, Response, Line, blank, message, bad_json, read_error, end_of_file, Move, begins,
  unsent, reads, lookup, delete, register, registered, begun, withdraw, respond, put, dispatch,
  without_method, answered_by, all_fail, shut, read_line, move, conn_run, new_conn,
}
use buildbee.Agent.Rpc.Calls.Pending.{
  IsNamed, for_call, to_call, delete-All, delete-count, delete-found, delete-missing,
  lookup-IsNamed, delete-waits, all_fail-count, all_fail-exists,
}

-- The responses that a call has or may still get: its channel has room for one.
abbrev pub due_to : ℕ → Conn → ℕ
due_to n c = count_if (for_call n) c.pending + count_if (to_call n) c.answers

-- The call waits, has its response, or was given up by `start`.
abbrev pub is_settled : ℕ → Conn → Bool
is_settled n c = exists (to_call n) c.answers || exists (λ k. k == n) c.given_up

abbrev pub IsKept : Conn → Type 0
IsKept c =
    (n : ℕ) → 0 < n → n ≤ c.next_id → (exists (for_call n) c.pending || is_settled n c) ≡ true

pub record IsSound (c : Conn) : Type 0 where
  pub named : All IsNamed c.pending
  pub once : (n : ℕ) → due_to n c ≤ 1
  pub fresh : (n : ℕ) → c.next_id < n → due_to n c ≡ 0
  pub kept : IsKept c
  pub over : is_nil c.closed ≡ false → c.pending ≡ []

new_conn-IsSound : IsSound new_conn
unfolding count_if
new_conn-IsSound = record {
  named = tt;
  once = λ n. omega arith;
  fresh = λ n h. omega arith;
  kept = λ n h k. ground (arith, h, k);
  over = λ h. refl;
}

registered-IsSound :
    (c : Conn) → IsSound c → is_nil c.closed ≡ true → IsSound (registered (suc c.next_id) c)
unfolding count_if exists
registered-IsSound c s o = record {
  named = (refl, delete-All (decimal (suc c.next_id)) c.pending s.named);
  once = λ n. ground (
    arith,
    s.once n,
    s.fresh n,
    delete-count (decimal (suc c.next_id)) n c.pending,
    ==_iff (suc c.next_id) n,
  );
  fresh = λ n h. ground (
    arith,
    h,
    s.fresh n,
    delete-count (decimal (suc c.next_id)) n c.pending,
    ==_iff (suc c.next_id) n,
  );
  kept = λ n h k. ground (
    arith,
    h,
    k,
    s.kept n,
    delete-waits (decimal (suc c.next_id)) n c.pending s.named,
    text_eq_iff (decimal n) (decimal (suc c.next_id)),
    decimal-inj n (suc c.next_id),
    ==_iff (suc c.next_id) n,
  );
  over = λ h. ground (arith, h, o);
}

withdraw-IsSound : (n : ℕ) (c : Conn) → IsSound c → IsSound (withdraw n c)
unfolding withdraw count_if exists delete
withdraw-IsSound n c s = record {
  named = delete-All (decimal n) c.pending s.named;
  once = λ m. omega (arith, s.once m, delete-count (decimal n) m c.pending);
  fresh = λ m h. omega (arith, s.fresh m h, delete-count (decimal n) m c.pending);
  kept = λ m h k. ground (
    arith,
    s.kept m h k,
    delete-waits (decimal n) m c.pending s.named,
    text_eq_iff (decimal m) (decimal n),
    decimal-inj m n,
    ==_iff n m,
  );
  over = λ h. ap (delete (decimal n)) (s.over h);
}

respond-IsSound :
    (key : Text) (r : Response) (c : Conn)
    → is_nil c.closed ≡ true
    → IsSound c
    → IsSound (respond key r c)
unfolding respond count_if exists
respond-IsSound key r c o s = elim (Option-cases (lookup key c.pending)) [
  | inl e ↦ record {
    named = delete-All key c.pending s.named;
    once = λ n. ground (arith, e, s.once n, delete-count key n c.pending);
    fresh = λ n h. ground (arith, e, s.fresh n h, delete-count key n c.pending);
    kept = λ n h k. ground (arith, e, s.kept n h k, delete-missing key c.pending e);
    over = λ h. ground (arith, h, o);
  }
  | inr (m, e) ↦ record {
    named = delete-All key c.pending s.named;
    once = λ n. ground (
      arith,
      e,
      s.once n,
      delete-count key n c.pending,
      delete-found key m c.pending e,
      ==_iff m n,
    );
    fresh = λ n h. ground (
      arith,
      e,
      s.fresh n h,
      delete-count key n c.pending,
      delete-found key m c.pending e,
      ==_iff m n,
    );
    kept = λ n h k. ground (
      arith,
      e,
      s.kept n h k,
      delete-waits key n c.pending s.named,
      lookup-IsNamed key m c.pending s.named e,
      text_eq_iff (decimal n) key,
      decimal-inj n m,
      ==_iff m n,
    );
    over = λ h. ground (arith, h, o);
  }
]

shut-IsSound : (reason : Text) (c : Conn) → IsSound c → IsSound (shut reason c)
unfolding shut count_if exists
shut-IsSound reason c s = record {
  named = tt;
  once = λ n. omega (arith, s.once n, all_fail-count reason n c.pending c.answers);
  fresh = λ n h. omega (arith, s.fresh n h, all_fail-count reason n c.pending c.answers);
  kept = λ n h k. ground (arith, s.kept n h k, all_fail-exists reason n c.pending c.answers);
  over = λ h. refl;
}

-- Messages that are no responses leave the calls alone.
heard :
    (c : Conn) (asked told : List Message)
    → IsSound c
    → IsSound (record c { asked = asked; told = told })
heard c asked told s = record {
  named = s.named;
  once = s.once;
  fresh = s.fresh;
  kept = s.kept;
  over = s.over;
}

without_method-IsSound :
    (m : Message) (c : Conn) → is_nil c.closed ≡ true → IsSound c → IsSound (without_method m c)
without_method-IsSound m c o s = elim (Option-cases m.id) [
  | inl e ↦ rw e s
  | inr (key, e) ↦ rw e (respond-IsSound key (answered_by m) c o s)
]

dispatch-IsSound :
    (m : Message) (c : Conn) → is_nil c.closed ≡ true → IsSound c → IsSound (dispatch m c)
unfolding dispatch
dispatch-IsSound m c o s = elim (Bool-cases (is_empty m.method)) [
  | inl e ↦ rw e (without_method-IsSound m c o s)
  | inr e ↦ elim (Bool-cases (is_nil m.id)) [
    | inl y ↦ rw (e, y) (heard c c.asked (c.told ++ m ∷ []) s)
    | inr n ↦ rw (e, n) (heard c (c.asked ++ m ∷ []) c.told s)
  ]
]

-- A step that is taken while the connection is open.
if_open :
    (c d : Conn)
    → IsSound c
    → (is_nil c.closed ≡ true → IsSound d)
    → IsSound (if is_nil c.closed then d else c)
if_open c d s f = elim (Bool-cases (is_nil c.closed)) [ inl e ↦ rw e (f e) | inr n ↦ rw n s ]

read_line-IsSound : (l : Line) (c : Conn) → IsSound c → IsSound (read_line l c)
unfolding read_line
read_line-IsSound blank c s = s
read_line-IsSound (message m) c s = if_open c _ s (λ o. dispatch-IsSound m c o s)
read_line-IsSound (bad_json e) c s = if_open c _ s (λ o. shut-IsSound _ c s)
read_line-IsSound (read_error e) c s = if_open c _ s (λ o. shut-IsSound _ c s)
read_line-IsSound end_of_file c s = if_open c _ s (λ o. shut-IsSound _ c s)

begun-IsSound : (o : Option Text) (c : Conn) → c.closed ≡ o → IsSound c → IsSound (begun o c).1
begun-IsSound none c e s = registered-IsSound c s (ap is_nil e)
begun-IsSound (some r) c e s = s

refused : (o : Option Text) (c : Conn) → is_nil o ≡ false → begun o c ≡ (none, c)
refused none c h = ground (arith, h)
refused (some r) c h = refl

move-IsSound : (m : Move) (c : Conn) → IsSound c → IsSound (move m c)
unfolding move register
move-IsSound begins c s = begun-IsSound c.closed c refl s
move-IsSound (unsent n) c s = withdraw-IsSound n c s
move-IsSound (reads l) c s = read_line-IsSound l c s

pub conn_run-IsSound : (ms : List Move) (c : Conn) → IsSound c → IsSound (conn_run ms c)
unfolding conn_run
conn_run-IsSound [] c s = s
conn_run-IsSound (m ∷ ms) c s = conn_run-IsSound ms (move m c) (move-IsSound m c s)

-- However calls, failures to send and what the agent writes follow one another, no call has more
-- than one response, waiting ones counted: a response finds room in the channel of its call.
pub conn_run-once :
    (ms : List Move) (n : ℕ)
    → count_if (for_call n) (conn_run ms new_conn).pending
        + count_if (to_call n) (conn_run ms new_conn).answers
      ≤ 1
conn_run-once ms n = (conn_run-IsSound ms new_conn new_conn-IsSound).once n

-- Once the reading has ended, whatever happened before, no call waits: every call that was numbered
-- has a response or was given up by `start`; and another call is refused.
pub conn_run-ends :
    (ms : List Move) (n : ℕ)
    → is_nil (conn_run ms new_conn).closed ≡ false
    → 0 < n
    → n ≤ (conn_run ms new_conn).next_id
    → (exists (for_call n) (conn_run ms new_conn).pending ≡ false)
      × (is_settled n (conn_run ms new_conn) ≡ true)
      × (register (conn_run ms new_conn) ≡ (none, conn_run ms new_conn))
unfolding exists register
conn_run-ends ms n o h k =
    let s = conn_run-IsSound ms new_conn new_conn-IsSound in
    let nobody : exists (for_call n) (conn_run ms new_conn).pending ≡ false =
      ap (exists (for_call n)) (s.over o) in
    (
      nobody,
      ground (arith, nobody, s.kept n h k),
      refused (conn_run ms new_conn).closed (conn_run ms new_conn) o,
    )
