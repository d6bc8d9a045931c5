-- ===== src/Listers/Lookup.antt =====
-- What Get finds, against what List returns.
use mathlib.Core.List.{Memᴰ, append-nil, append_assoc}
use lvs_nginx_controller.Base.{
  ◌≡◌, ◌≢◌, refl, sym, ap, ◌∙◌, ◌↔◌, ◌⊎◌, inl, inr, false, Option, none, some, List, [], ◌∷◌, ◌++◌,
  contains, nat_eq, arith,
}
use lvs_nginx_controller.Base.Text.{Text, codes, split}
use lvs_nginx_controller.Base.Text.Split.{split-single, split-append}
use lvs_nginx_controller.Api.{Meta, Configuration}
use lvs_nginx_controller.Listers.{Indexer, not_found, resource, append_each, list_namespace, get}

-- The names of an object.
pub record Names (M : Meta) : Type 0 where
  pub name : M.ObjectMeta → Text
  pub namespace : M.ObjectMeta → Text

-- A text that stands before or after the slash of a key.
pub record Plain (t : Text) : Type 0 where
  pub filled : t ≢ []
  pub unslashed : contains t 47 ≡ false

module _ (M : Meta) (N : Names M) where
  abbrev pub key : Text → Text → Text
  key namespace name = namespace ++ (codes "/" ++ name)

  -- An indexer without errors that holds the objects, each under the key of its names.
  -- `everything` selects all of them.
  pub record IsIndexed (I : Indexer M) (everything : I.Selector) (objects : List (Configuration M))
      : Type 0 where
    pub plain :
        (c : Configuration M)
        → Memᴰ c objects
        → Plain (N.namespace c.object_meta) × Plain (N.name c.object_meta)
    pub no_error : (k : Text) (e : I.Error) → I.get_by_key k ≢ inl e
    pub sound :
        (k : Text) (c : Configuration M)
        → I.get_by_key k ≡ inr (some c)
        → Memᴰ c objects × (key (N.namespace c.object_meta) (N.name c.object_meta) ≡ k)
    pub complete :
        (c : Configuration M)
        → Memᴰ c objects
        → I.get_by_key (key (N.namespace c.object_meta) (N.name c.object_meta)) ≡ inr (some c)
    pub by_namespace :
        (ns : Text) (c : Configuration M)
        → ns ≢ []
        → Memᴰ c (I.list_all_by_namespace ns everything).0
          ↔ (Memᴰ c objects × (N.namespace c.object_meta ≡ ns))

  append_each_lem : (ret ms : List (Configuration M)) → append_each M ret ms ≡ ret ++ ms
  unfolding append_each
  append_each_lem ret [] = rw append-nil
  append_each_lem ret (m ∷ ms) = rw (append_each_lem (ret ++ (m ∷ [])) ms, append_assoc)

  abbrev head_or_empty : List Text → Text
  head_or_empty [] = []
  head_or_empty (t ∷ ts) = t

  abbrev second_or_empty : List Text → Text
  second_or_empty [] = []
  second_or_empty (t ∷ ts) = head_or_empty ts

  split-key : (s t : Text) → Plain s → Plain t → split 47 (key s t) ≡ s ∷ t ∷ []
  split-key s t p q = rw (split-append 47 s t p.unslashed, split-single 47 t q.unslashed)

  key-Injective :
      (s t u v : Text)
      → Plain s
      → Plain t
      → Plain u
      → Plain v
      → key s t ≡ key u v
      → (s ≡ u) × (t ≡ v)
  key-Injective s t u v p q p' q' e =
      let parts = sym (split-key s t p q) ∙ (ap (split 47) e ∙ split-key u v p' q') in
      (ap head_or_empty parts, ap second_or_empty parts)

  -- Get returns an object that is stored under the key.
  get_some :
      (I : Indexer M) (ns name : Text) (c : Configuration M)
      → get M I ns name ≡ inr c
      → I.get_by_key (key ns name) ≡ inr (some c)
  unfolding get
  get_some I ns name c e = ground (arith, e)

  get_of_key :
      (I : Indexer M) (ns name : Text) (c : Configuration M)
      → I.get_by_key (key ns name) ≡ inr (some c)
      → get M I ns name ≡ inr c
  unfolding get
  get_of_key I ns name c e = rw (e, get)

  get_missing :
      (I : Indexer M) (ns name : Text) (r : I.Error ⊎ Option (Configuration M))
      → I.get_by_key (key ns name) ≡ r
      → ((e : I.Error) → r ≢ inl e)
      → ((c : Configuration M) → r ≢ inr (some c))
      → get M I ns name ≡ inl (not_found (resource (codes "configuration")) name)
  unfolding get
  get_missing I ns name (inl e) h no_error none_stored = elim (no_error e refl) [ ]
  get_missing I ns name (inr none) h no_error none_stored = rw (h, get)
  get_missing I ns name (inr (some c)) h no_error none_stored = elim (none_stored c refl) [ ]

  mem-list_namespace :
      (I : Indexer M) (everything : I.Selector) (objects : List (Configuration M))
      → IsIndexed I everything objects
      → (ns : Text) (c : Configuration M) → Plain ns
      → Memᴰ c (list_namespace M I ns everything).0
        ↔ (Memᴰ c objects × (N.namespace c.object_meta ≡ ns))
  unfolding list_namespace
  mem-list_namespace I everything objects i ns c p =
      rw append_each_lem (i.by_namespace ns c p.filled)

  -- What is stored under the key is in the list of the namespace, and has the name.
  stored-list_namespace :
      (I : Indexer M) (everything : I.Selector) (objects : List (Configuration M))
      → IsIndexed I everything objects
      → (ns name : Text) (c : Configuration M) → Plain ns
      → Plain name
      → I.get_by_key (key ns name) ≡ inr (some c)
      → Memᴰ c (list_namespace M I ns everything).0 × (N.name c.object_meta ≡ name)
  stored-list_namespace I everything objects i ns name c p q e =
      let (m, k) = i.sound (key ns name) c e in
      let (p', q') = i.plain c m in
      let (same_namespace, same_name) = key-Injective _ _ ns name p' q' p q k in
      ((mem-list_namespace I everything objects i ns c p).1 (m, same_namespace), same_name)

  -- Let an indexer hold objects under the keys of their names. For a namespace and a name without
  -- slashes, Get returns an object exactly where List of the namespace has it and it has the name.
  -- If List has none with the name, Get returns the error that it was not found.
  pub get-list_namespace :
      (I : Indexer M) (everything : I.Selector) (objects : List (Configuration M))
      → IsIndexed I everything objects
      → (ns name : Text) → Plain ns
      → Plain name
      → ((c : Configuration M)
          → (get M I ns name ≡ inr c)
            ↔ (Memᴰ c (list_namespace M I ns everything).0 × (N.name c.object_meta ≡ name)))
        × (((c : Configuration M)
              → Memᴰ c (list_namespace M I ns everything).0
              → N.name c.object_meta ≢ name)
            → get M I ns name ≡ inl (not_found (resource (codes "configuration")) name))
  get-list_namespace I everything objects i ns name p q = (
    λ c. (
      λ e. stored-list_namespace I everything objects i ns name c p q (get_some I ns name c e),
      λ (m, e).
          let (stored, same) = (mem-list_namespace I everything objects i ns c p).0 m in
          get_of_key I ns name c (rw (← same, ← e) (i.complete c stored)),
    ),
    λ missing. get_missing I ns name _ refl (i.no_error (key ns name)) (λ c e.
        let (m, same) = stored-list_namespace I everything objects i ns name c p q e in
        missing c m same),
  )
