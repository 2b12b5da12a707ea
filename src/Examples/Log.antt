-- ===== src/Examples/Log.antt =====
-- A Redis server that keeps the commands which it ran, and answers its reads from them.
use cex_go.Prelude.{
  ℕ, String, Bool, Bool-cases, true, false, ◌==◌, Option, none, some, List, [], ◌∷◌, ◌++◌, ◌≡◌,
  refl, ap, sym, ◌∙◌, ◌⊎◌, inl, inr, Mem, All, All-Mem, if◌then◌else◌, arith,
}
use cex_go.Prelude.Int.{ℤ, pos, ◌≤ℤ◌, leb_ℤ, int_laws}
use cex_go.Database.Table.{is_some}
use cex_go.Database.Listing.{select_all, order_by, limit_to}
use cex_go.Database.Listing.Sorting.{
  IsSorted, All-select_all, All-order_by, Mem-order_by, Mem-select_all, order_by-IsSorted,
}
use cex_go.Redis.{Command, zadd, zrem, hset, del, Span, first_only, everything, Server}
use cex_go.Redis.View.{
  View, after, after_all, Agrees, IsFirst, IsRanked, IsRanking, AtMost, AtLeast, IsRedis, is_entry,
}

abbrev pub Log : Type 0
Log = List Command

abbrev pub empty_view : View
empty_view = record { hash = λ _. none; score = λ _ _ _. none }

abbrev pub view_of : Log → View
view_of log = after_all log empty_view

abbrev is_listed : ℕ → List ℕ → Bool
is_listed id [] = false
is_listed id (k ∷ ks) = let rest = is_listed id ks in if k == id then true else rest

-- The ids that a ZADD named, each once
abbrev named : Log → List ℕ
named [] = []
named (zadd _ _ _ id ∷ cs) = let rest = named cs in if is_listed id rest then rest else id ∷ rest
named (zrem _ _ _ ∷ cs) = named cs
named (hset _ _ ∷ cs) = named cs
named (del _ ∷ cs) = named cs

abbrev score_or_zero : Option ℤ → ℤ
score_or_zero none = pos 0
score_or_zero (some z) = z

abbrev members : (ℤ → ℤ → Bool) → (ℕ → Option ℤ) → Log → List ℕ
members le score log =
    order_by (λ i j. le (score_or_zero (score i)) (score_or_zero (score j)))
      (select_all (λ id. is_some (score id)) (named log))

abbrev spanned : Span → List ℕ → List ℕ
spanned first_only ids = limit_to 1 ids
spanned everything ids = ids

abbrev geb_ℤ : ℤ → ℤ → Bool
geb_ℤ a b = leb_ℤ b a

abbrev pub log_server : Server
log_server = record {
  Store = Log;
  zrange = λ span m side log. some (spanned span (members leb_ℤ ((view_of log).score m side) log));
  zrevrange =
      λ span m side log. some (spanned span (members geb_ℤ ((view_of log).score m side) log));
  hgetall = λ id log. some ((view_of log).hash id);
  exec = λ cs log. (true, log ++ cs);
  publish = λ _ _ log. log;
}

after_all-append : (cs ds : Log) (v : View) → after_all (cs ++ ds) v ≡ after_all ds (after_all cs v)
after_all-append [] ds v = refl
after_all-append (c ∷ cs) ds v = after_all-append cs ds (after c v)

Mem-is_listed : (id : ℕ) (ks : List ℕ) → is_listed id ks ≡ true → Mem id ks
Mem-is_listed id [] e = absurd (cc e)
Mem-is_listed id (k ∷ ks) e = elim (Bool-cases (k == id)) [
  | inl h ↦ inl (ground (arith, h))
  | inr h ↦ inr (Mem-is_listed id ks (rw h at e))
]

-- A member was named by a ZADD.
Mem-named :
    (log : Log) (v : View) (m : ℕ) (side : String) (id : ℕ) (z : ℤ)
    → (after_all log v).score m side id ≡ some z
    → Mem id (named log) ⊎ (v.score m side id ≡ some z)
Mem-named [] v m side id z e = inr e
Mem-named (zadd a b y k ∷ cs) v m side id z e =
    elim (Mem-named cs (after (zadd a b y k) v) m side id z e) [
      | inl i ↦
          inl (elim (Bool-cases (is_listed k (named cs))) [ inl h ↦ rw h i | inr h ↦ rw h (inr i) ])
      | inr f ↦ elim (Bool-cases (is_entry a b k m side id)) [
        | inr h ↦ inr (ground (arith, h, f))
        | inl h ↦
            let same : id ≡ k = ground (arith, h) in
            inl (elim (Bool-cases (is_listed k (named cs))) [
              | inl g ↦ rw (g, same) (Mem-is_listed k (named cs) g)
              | inr g ↦ rw g (inl same)
            ])
      ]
    ]
Mem-named (zrem a b k ∷ cs) v m side id z e =
    elim (Mem-named cs (after (zrem a b k) v) m side id z e) [
      | inl i ↦ inl i
      | inr f ↦ inr (ground (arith, f))
    ]
Mem-named (hset k d ∷ cs) v m side id z e = Mem-named cs (after (hset k d) v) m side id z e
Mem-named (del k ∷ cs) v m side id z e = Mem-named cs (after (del k) v) m side id z e

module _ (le : ℤ → ℤ → Bool) (Le : ℤ → ℤ → Type 0) (sound : (a b : ℤ) → le a b ≡ true → Le a b)
    (reflexive : (a : ℤ) → Le a a) (total : (a b : ℤ) → le a b ≡ false → le b a ≡ true)
    (trans : (a b c : ℤ) → le a b ≡ true → le b c ≡ true → le a c ≡ true) where
  abbrev in_order : (ℕ → Option ℤ) → ℕ → ℕ → Bool
  in_order score i j = le (score_or_zero (score i)) (score_or_zero (score j))

  sorted-IsRanked :
      (score : ℕ → Option ℤ) (ids : List ℕ)
      → IsSorted (in_order score) ids
      → All (λ id. is_some (score id) ≡ true) ids
      → IsRanked Le score ids
  sorted-IsRanked score [] s a = tt
  sorted-IsRanked score (id ∷ ids) (first, s) (there, a) =
      (of_some (score id) refl there, sorted-IsRanked score ids s a)
    where
      of_some :
          (o : Option ℤ)
          → score id ≡ o
          → is_some o ≡ true
          → (z : ℤ) × (score id ≡ some z)
            × ((k : ℕ) (y : ℤ) → Mem k ids → score k ≡ some y → Le z y)
      of_some none e i = absurd (cc i)
      of_some (some z) e i = (
        z,
        e,
        λ k y m f. sound z y (
            rw (ap score_or_zero e, ap score_or_zero f) at
              (All-Mem (λ j. in_order score id j ≡ true) ids k first m)),
      )

  members-IsRanking :
      (m : ℕ) (side : String) (log : Log)
      → let score = (view_of log).score m side in IsRanking Le score (members le score log)
  members-IsRanking m side log =
      let score = (view_of log).score m side in
      let there = select_all (λ id. is_some (score id)) (named log) in
      (
        sorted-IsRanked score (order_by (in_order score) there)
            (order_by-IsSorted (in_order score)
              (λ i j. total (score_or_zero (score i)) (score_or_zero (score j)))
              (λ i j k.
                trans (score_or_zero (score i)) (score_or_zero (score j)) (score_or_zero (score k)))
              there)
            (All-order_by (in_order score) (λ id. is_some (score id) ≡ true) there
              (All-select_all (λ id. is_some (score id)) (named log))),
        λ id z e. Mem-order_by (in_order score) id there (
            Mem-select_all (λ id. is_some (score id)) id (named log)
              (elim (Mem-named log empty_view m side id z e) [ inl i ↦ i | inr f ↦ absurd (cc f) ])
              (rw e refl)),
      )

  ranking-IsFirst :
      (score : ℕ → Option ℤ) (ids : List ℕ)
      → IsRanking Le score ids
      → IsFirst Le score (limit_to 1 ids)
  ranking-IsFirst score [] (r, whole) = λ id. no_score id (score id) refl
    where
      no_score : (id : ℕ) (o : Option ℤ) → score id ≡ o → score id ≡ none
      no_score id none e = e
      no_score id (some z) e = absurd (whole id z e)
  ranking-IsFirst score (id ∷ ids) (((z, e, least), r), whole) = (
    z,
    e,
    λ k y f. elim (whole k y f) [
      | inr i ↦ least k y i f
      | inl same ↦
          let equal : some y ≡ some z = sym f ∙ ap score same ∙ e in
          let value : y ≡ z = cc equal in rw value (reflexive z)
    ],
  )

-- Twice the distance of the float64 values up to 2^16, in 10^-13
abbrev pub float_gap : ℕ
float_gap = 146

leb-AtMost : (a b : ℤ) → leb_ℤ a b ≡ true → AtMost float_gap a b
leb-AtMost a b h = let le : a ≤ℤ b = ground (arith, h) in omega int_laws

AtMost-self : (a : ℤ) → AtMost float_gap a a
AtMost-self a = omega int_laws

leb_total : (a b : ℤ) → leb_ℤ a b ≡ false → leb_ℤ b a ≡ true
leb_total a b h = ground (arith, h)

leb_trans : (a b c : ℤ) → leb_ℤ a b ≡ true → leb_ℤ b c ≡ true → leb_ℤ a c ≡ true
leb_trans a b c h k = ground (arith, h, k)

ascending-IsRanking :
    (m : ℕ) (side : String) (log : Log) (ids : List ℕ)
    → some (members leb_ℤ ((view_of log).score m side) log) ≡ some ids
    → IsRanking (AtMost float_gap) ((view_of log).score m side) ids
ascending-IsRanking m side log ids e =
    let same : members leb_ℤ ((view_of log).score m side) log ≡ ids = cc e in
    rw (← same) (
      members-IsRanking leb_ℤ (AtMost float_gap) leb-AtMost AtMost-self leb_total leb_trans m side
        log)

descending-IsRanking :
    (m : ℕ) (side : String) (log : Log) (ids : List ℕ)
    → some (members geb_ℤ ((view_of log).score m side) log) ≡ some ids
    → IsRanking (AtLeast float_gap) ((view_of log).score m side) ids
descending-IsRanking m side log ids e =
    let same : members geb_ℤ ((view_of log).score m side) log ≡ ids = cc e in
    rw (← same) (
      members-IsRanking geb_ℤ (AtLeast float_gap) (λ a b. leb-AtMost b a) AtMost-self
        (λ a b. leb_total b a) (λ a b c h k. leb_trans c b a k h) m side log)

ascending-IsFirst :
    (m : ℕ) (side : String) (log : Log) (ids : List ℕ)
    → some (limit_to 1 (members leb_ℤ ((view_of log).score m side) log)) ≡ some ids
    → IsFirst (AtMost float_gap) ((view_of log).score m side) ids
ascending-IsFirst m side log ids e =
    let score = (view_of log).score m side in
    let all = members leb_ℤ score log in
    let same : limit_to 1 all ≡ ids = cc e in
    rw (← same) (
      ranking-IsFirst leb_ℤ (AtMost float_gap) leb-AtMost AtMost-self leb_total leb_trans score all
        (ascending-IsRanking m side log all refl))

descending-IsFirst :
    (m : ℕ) (side : String) (log : Log) (ids : List ℕ)
    → some (limit_to 1 (members geb_ℤ ((view_of log).score m side) log)) ≡ some ids
    → IsFirst (AtLeast float_gap) ((view_of log).score m side) ids
descending-IsFirst m side log ids e =
    let score = (view_of log).score m side in
    let all = members geb_ℤ score log in
    let same : limit_to 1 all ≡ ids = cc e in
    rw (← same) (
      ranking-IsFirst geb_ℤ (AtLeast float_gap) (λ a b. leb-AtMost b a) AtMost-self
        (λ a b. leb_total b a) (λ a b c h k. leb_trans c b a k h) score all
        (descending-IsRanking m side log all refl))

appended-Agrees :
    (cs log log' : Log) (b : Bool)
    → ◌≡◌ {A = Bool × Log} (true, log ++ cs) (b, log')
    → Agrees (view_of log') (after_all cs (view_of log))
appended-Agrees cs log log' b e =
    let same : log ++ cs ≡ log' = cc e in
    let ran = after_all-append log cs empty_view in
    rw (← same) ((λ id. rw ran refl), λ m side id. rw ran refl)

-- The server does what is documented of Redis.
pub log_server-IsRedis : IsRedis float_gap log_server view_of
log_server-IsRedis = record {
  exec_agrees = λ cs log log' e. appended-Agrees cs log log' true e;
  publish_agrees = λ m p log. ((λ id. refl), λ m side id. refl);
  hgetall_agrees = λ id log d e. cc e;
  zrange_first = ascending-IsFirst;
  zrevrange_first = descending-IsFirst;
  zrange_ranked = ascending-IsRanking;
  zrevrange_ranked = descending-IsRanking;
}
