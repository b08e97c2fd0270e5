-- ===== src/Client/Pool/Removal.antt =====
-- `removeByClient`.
use gffg.Prelude.{
  ℕ, suc, ◌+◌, ◌≡◌, refl, sym, ap, ◌∙◌, arith, List, [], ◌∷◌, if◌then◌else◌, true, false, length,
  Bool-cases, inl, inr,
}
use gffg.Prelude.Text.{Text, text_eq, text_eq_refl, text_eq→eq}
use gffg.Client.Pool.{
  Conn, Pool, key, assign, without, has_name, remove_read, remove_write, remove_during,
  remove_by_client,
}

-- How many connections of a list have the name.
pub count_name : Text → List Conn → ℕ
count_name name [] = 0
count_name name (c ∷ conns) =
    let rest = count_name name conns in if text_eq c.name name then suc rest else rest

has_name_none :
    (name : Text) (conns : List Conn) → has_name name conns ≡ false → without name conns ≡ conns
unfolding has_name without
has_name_none name [] h = refl
has_name_none name (c ∷ conns) h = ground (arith, has_name_none name conns)

same_name :
    (a name other : Text)
    → text_eq a name ≡ true
    → text_eq name other ≡ false
    → text_eq a other ≡ false
same_name a name other e ne = rw (text_eq→eq a name e) ne

pub count_name-without :
    (name other : Text) (conns : List Conn)
    → text_eq name other ≡ false
    → count_name other (without name conns) ≡ count_name other conns
unfolding count_name without
count_name-without name other [] ne = refl
count_name-without name other (c ∷ conns) ne = elim (Bool-cases (text_eq c.name name)) [
  | inl hit ↦ rw (hit, same_name c.name name other hit ne) (count_name-without name other conns ne)
  | inr miss ↦ elim (Bool-cases (text_eq c.name other)) [
    | inl is_other ↦ rw (miss, is_other) (ap suc (count_name-without name other conns ne))
    | inr is_not ↦ rw (miss, is_not) (count_name-without name other conns ne)
  ]
]

pub count_name-without_self :
    (name : Text) (conns : List Conn) → count_name name (without name conns) ≡ 0
unfolding count_name without
count_name-without_self name [] = refl
count_name-without_self name (c ∷ conns) = ground (arith, count_name-without_self name conns)

length-without :
    (name : Text) (conns : List Conn)
    → length (without name conns) + count_name name conns ≡ length conns
unfolding count_name without
length-without name [] = refl
length-without name (c ∷ conns) = ground (arith, length-without name conns)

module _ (group svrname name : Text) (p : Pool) where
  remove_conns :
      (remove_by_client group svrname name p).rpcconn (key group svrname)
      ≡ without name (p.rpcconn (key group svrname))
  unfolding remove_by_client remove_during remove_read remove_write assign
  remove_conns = elim (Bool-cases (has_name name (p.rpcconn (key group svrname)))) [
    | inl found ↦ rw (found, text_eq_refl) refl
    | inr missing ↦ rw missing (sym (has_name_none name (p.rpcconn (key group svrname)) missing))
  ]

  -- A removal that has found the name stores what it has read, whatever other goroutines do meanwhile.
  pub removed_conns :
      (meanwhile : Pool → Pool)
      → has_name name (p.rpcconn (key group svrname)) ≡ true
      → (remove_during meanwhile group svrname name p).rpcconn (key group svrname)
        ≡ without name (p.rpcconn (key group svrname))
  unfolding remove_during remove_read remove_write assign
  removed_conns meanwhile found = rw (found, text_eq_refl (key group svrname)) refl

  -- After removeByClient, with no step of another goroutine in between, no connection of the key
  -- has the name, and as many are gone as had it.
  pub remove_by_client_lem :
      (count_name name ((remove_by_client group svrname name p).rpcconn (key group svrname)) ≡ 0)
      × (length ((remove_by_client group svrname name p).rpcconn (key group svrname))
            + count_name name (p.rpcconn (key group svrname))
          ≡ length (p.rpcconn (key group svrname)))
  remove_by_client_lem = rw remove_conns (count_name-without_self name _, length-without name _)

  -- removeByClient, with no step of another goroutine in between, keeps as many connections of
  -- every other name as there were.
  pub remove_by_client_keeps :
      (other : Text)
      → text_eq name other ≡ false
      → count_name other ((remove_by_client group svrname name p).rpcconn (key group svrname))
        ≡ count_name other (p.rpcconn (key group svrname))
  remove_by_client_keeps other ne = rw remove_conns (count_name-without name other _ ne)

-- A removal that writes stores what it has read, whatever the pool is by then.
remove_write_stores :
    (group svrname name : Text) (p q : Pool)
    → has_name name (p.rpcconn (key group svrname)) ≡ true
    → (remove_write (remove_read group svrname name p) q).rpcconn (key group svrname)
      ≡ without name (p.rpcconn (key group svrname))
unfolding remove_write remove_read assign
remove_write_stores group svrname name p q found = rw (found, text_eq_refl (key group svrname)) refl

-- If two connections of a key are removed at the same time, so that both removals read the pool
-- before either writes it, the pool holds as many connections of the first name as before; one
-- removal after the other leaves none.
pub removals_race :
    (group svrname a b : Text) (p : Pool)
    → has_name a (p.rpcconn (key group svrname)) ≡ true
    → has_name b (p.rpcconn (key group svrname)) ≡ true
    → text_eq b a ≡ false
    → (count_name a (
          (remove_write
              (remove_read group svrname b p)
              (remove_write (remove_read group svrname a p) p)).rpcconn
            (key group svrname))
        ≡ count_name a (p.rpcconn (key group svrname)))
      × (count_name a (
            (remove_by_client group svrname b (remove_by_client group svrname a p)).rpcconn
              (key group svrname))
          ≡ 0)
removals_race group svrname a b p in_a in_b ne = (
  rw (remove_write_stores group svrname b p (remove_write (remove_read group svrname a p) p) in_b)
      (count_name-without b a (p.rpcconn (key group svrname)) ne),
  remove_by_client_keeps group svrname b (remove_by_client group svrname a p) a ne
      ∙ (remove_by_client_lem group svrname a p).0,
)
