-- ===== src/Client/Pool/Laws.antt =====
-- The pool: its bound, the choice of a connection, and the removal of one.
use gffg.Prelude.{
  ℕ, zero, suc, ◌-◌, ◌≤◌, ◌<◌, ◌≡◌, ◌≢◌, refl, ap, ◌∙◌, arith, Option, none, some, List, [], ◌∷◌,
  true, false, length, ltb, ◌==◌, get_elem?, length-append, length-set, get_elem?-set_self,
  Bool-cases, Option-cases, inl, inr,
}
use gffg.Prelude.Text.{Text, text_eq, text_eq_refl}
use gffg.Client.Pool.{
  Conn, Pool, Dialed, Choice, chosen, no_node, choose, key, assign, connected, gen_con, fill_empty,
  top_up, response,
}

assign_self : (p : Pool) (k : Text) (conns : List Conn) → (assign p k conns).rpcconn k ≡ conns
unfolding assign
assign_self p k conns = rw text_eq_refl refl

assign_other :
    (p : Pool) (k j : Text) (conns : List Conn)
    → text_eq k j ≡ false
    → (assign p k conns).rpcconn j ≡ p.rpcconn j
unfolding assign
assign_other p k j conns h = rw h refl

module _ (dial : ℕ → Option Dialed) (group svrname : Text) where
  length-connected :
      (d : Option Dialed) (conns : List Conn) (n : ℕ)
      → length conns ≤ n
      → length (connected group svrname d conns) ≤ suc n
  length-connected none conns n h = omega arith
  length-connected (some d) conns n h = omega arith

  length-gen_con : (num n : ℕ) → length (gen_con dial group svrname num n) ≤ num
  unfolding gen_con
  length-gen_con zero n = omega arith
  length-gen_con (suc num) n = length-connected (dial n) _ num (length-gen_con num (suc n))

  length-gen_con_all :
      (num n : ℕ) → ((i : ℕ) → dial i ≢ none) → length (gen_con dial group svrname num n) ≡ num
  unfolding gen_con
  length-gen_con_all zero n up = refl
  length-gen_con_all (suc num) n up = elim (Option-cases (dial n)) [
    | inl down ↦ absurd (up n down)
    | inr (d, e) ↦ rw e (ap suc (length-gen_con_all num (suc n) up))
  ]

  -- What the two fillings do to the connections of the key, to those of another key, and to the dials.
  record Filled (p q : Pool) (total : ℕ) : Type 0 where
    bound : length (q.rpcconn (key group svrname)) ≤ 8
    full : length (p.rpcconn (key group svrname)) ≡ 8 → q ≡ p
    others : (j : Text) → text_eq (key group svrname) j ≡ false → q.rpcconn j ≡ p.rpcconn j
    complete : ((i : ℕ) → dial i ≢ none) → total ≤ length (q.rpcconn (key group svrname))

  fill_empty-Filled :
      (p : Pool)
      → length (p.rpcconn (key group svrname)) ≤ 8
      → Filled p (fill_empty dial group svrname p) 1
  unfolding fill_empty
  fill_empty-Filled p h = elim (Bool-cases (length (p.rpcconn (key group svrname)) == 0)) [
    | inl empty ↦ rw empty (record {
      bound = rw assign_self (length-gen_con 8 p.dials);
      full = λ e. absurd (ground arith);
      others = λ j ne. assign_other _ (key group svrname) j _ ne;
      complete = λ up. rw (assign_self, length-gen_con_all 8 p.dials up) (omega arith);
    })
    | inr some_left ↦ rw some_left (record {
      bound = h;
      full = λ e. refl;
      others = λ j ne. refl;
      complete = λ up. ground arith;
    })
  ]

  top_up-Filled :
      (p : Pool)
      → length (p.rpcconn (key group svrname)) ≤ 8
      → Filled p (top_up dial group svrname p) 8
  unfolding top_up
  top_up-Filled p h = elim (Bool-cases (ltb (length (p.rpcconn (key group svrname))) 8)) [
    | inl less ↦
        let missing : ℕ = 8 - length (p.rpcconn (key group svrname)) in
        rw less (record {
          bound = rw assign_self (
              omega (
                arith,
                length-append (p.rpcconn (key group svrname))
                    (gen_con dial group svrname missing p.dials),
                length-gen_con missing p.dials,
              ));
          full = λ e. absurd (ground arith);
          others = λ j ne. assign_other _ (key group svrname) j _ ne;
          complete = λ up. rw assign_self (
              omega (
                arith,
                length-append (p.rpcconn (key group svrname))
                    (gen_con dial group svrname missing p.dials),
                length-gen_con_all missing p.dials up,
              ));
        })
    | inr enough ↦ rw enough (record {
      bound = h;
      full = λ e. refl;
      others = λ j ne. refl;
      complete = λ up. ground arith;
    })
  ]

  filled : Pool → Pool
  filled p = top_up dial group svrname (fill_empty dial group svrname p)

  filled-Filled : (p : Pool) → length (p.rpcconn (key group svrname)) ≤ 8 → Filled p (filled p) 8
  unfolding filled
  filled-Filled p h =
      let a = fill_empty-Filled p h in
      let b = top_up-Filled (fill_empty dial group svrname p) a.bound in
      record {
        bound = b.bound;
        full = λ e. b.full (rw (a.full e) e) ∙ a.full e;
        others = λ j ne. b.others j ne ∙ a.others j ne;
        complete = b.complete;
      }

get_elem?_lt {ℓ} :
    {A : Type ℓ} (xs : List A) (i : ℕ) → i < length xs → (a : A) × (get_elem? xs i ≡ some a)
get_elem?_lt [] i h = absurd (omega arith)
get_elem?_lt (x ∷ xs) zero h = (x, refl)
get_elem?_lt (x ∷ xs) (suc i) h = get_elem?_lt xs i (omega arith)

-- What `response` gives: an error with an empty pool, or a connection of the pool with a new stamp.
pub data Chosen (now : ℕ) (k : Text) : Pool × Choice → Type 0 where
  none_left : (q : Pool) → q.rpcconn k ≡ [] → Chosen now k (q, no_node)
  one_of :
      (q : Pool) (i : ℕ) (c : Conn)
      → get_elem? (q.rpcconn k) i ≡ some c
      → c.stamp ≡ now
      → Chosen now k (q, chosen c)

-- The pool of the key stays within eight and is full if every dial succeeds; the other keys are left
-- alone; a full pool is not dialled for.
record Responded (dial : ℕ → Option Dialed) (now : ℕ) (k : Text) (p : Pool) (r : Pool × Choice)
    : Type 0 where
  bounded : length (r.0.rpcconn k) ≤ 8
  others : (j : Text) → text_eq k j ≡ false → r.0.rpcconn j ≡ p.rpcconn j
  outcome : Chosen now k r
  complete : ((i : ℕ) → dial i ≢ none) → length (r.0.rpcconn k) ≡ 8
  idle : length (p.rpcconn k) ≡ 8 → r.0.dials ≡ p.dials

module _ (dial : ℕ → Option Dialed) (intn : ℕ → ℕ) (intn_lt : (n : ℕ) → 0 < n → intn n < n)
    (now : ℕ) (group svrname : Text) (p : Pool)
    (h : length (p.rpcconn (key group svrname)) ≤ 8) where
  not_empty : (xs : List Conn) (i : ℕ) (c : Conn) → get_elem? xs i ≡ some c → 0 < length xs
  not_empty [] i c e = cc
  not_empty (x ∷ xs) i c e = omega arith

  empty_list : (xs : List Conn) → length xs ≡ 0 → xs ≡ []
  empty_list [] e = refl
  empty_list (x ∷ xs) e = absurd (omega arith)

  response-Responded :
      Responded dial now (key group svrname) p (response dial intn now group svrname p)
  unfolding response filled
  response-Responded = elim (Bool-cases (length (q.rpcconn (key group svrname)) == 0)) [
    | inl empty ↦ rw empty (record {
      bounded = f.bound;
      others = f.others;
      outcome = none_left q (empty_list _ (ground arith));
      complete = λ up. absurd (omega (arith, f.complete up, nothing empty));
      idle = λ e. ap (λ (r : Pool). r.dials) (f.full e);
    })
    | inr some_left ↦ rw some_left (picked (get_elem?_lt _ _ (intn_lt _ (positive some_left))))
  ]
    where
      q : Pool
      q = filled dial group svrname p

      f : Filled dial group svrname p q 8
      f = filled-Filled dial group svrname p h

      nothing :
          (length (q.rpcconn (key group svrname)) == 0) ≡ true
          → length (q.rpcconn (key group svrname)) ≡ 0
      nothing e = ground arith

      positive :
          (length (q.rpcconn (key group svrname)) == 0) ≡ false
          → 0 < length (q.rpcconn (key group svrname))
      positive e = ground arith

      i : ℕ
      i = intn (length (q.rpcconn (key group svrname)))

      positive' :
          (c : Conn)
          → get_elem? (q.rpcconn (key group svrname)) i ≡ some c
          → 0 < length (q.rpcconn (key group svrname))
      positive' c e = not_empty (q.rpcconn (key group svrname)) i c e

      picked :
          (c : Conn) × (get_elem? (q.rpcconn (key group svrname)) i ≡ some c)
          → Responded dial now (key group svrname) p (
              choose dial now (key group svrname) q i (get_elem? (q.rpcconn (key group svrname)) i))
      picked (c, e) = rw e (record {
        bounded = rw (assign_self, length-set) f.bound;
        others = λ j ne. assign_other q (key group svrname) j _ ne ∙ f.others j ne;
        outcome =
            one_of _ i (record c { stamp = now })
              (rw assign_self (get_elem?-set_self _ i _ (intn_lt _ (positive' c e)))) refl;
        complete = λ up. rw (assign_self, length-set) (omega (arith, f.complete up, f.bound));
        idle = λ e'. (unfold assign in ap (λ (r : Pool). r.dials) (f.full e'));
      })

  -- From a pool with at most eight connections for the key, and with a random choice that is below
  -- its bound, pool.response either reports that there is no node, with no connection left for the
  -- key, or returns a connection of the pool with the new stamp, which the pool holds as well; at
  -- most eight connections are there then.
  pub response-Chosen :
      Chosen now (key group svrname) (response dial intn now group svrname p)
      × (length ((response dial intn now group svrname p).0.rpcconn (key group svrname)) ≤ 8)
  response-Chosen = (response-Responded.outcome, response-Responded.bounded)

  -- From a pool with at most eight connections for the key, if every dial succeeds, pool.response
  -- leaves exactly eight.
  pub response_complete :
      ((i : ℕ) → dial i ≢ none)
      → length ((response dial intn now group svrname p).0.rpcconn (key group svrname)) ≡ 8
  response_complete up = response-Responded.complete up

  -- With eight connections for the key, pool.response does not dial.
  pub response_idle :
      length (p.rpcconn (key group svrname)) ≡ 8
      → (response dial intn now group svrname p).0.dials ≡ p.dials
  response_idle e = response-Responded.idle e

  -- From a pool with at most eight connections for the key, pool.response leaves the connections of
  -- every other key as they were.
  pub response_others :
      (j : Text)
      → text_eq (key group svrname) j ≡ false
      → (response dial intn now group svrname p).0.rpcconn j ≡ p.rpcconn j
  response_others j ne = response-Responded.others j ne
