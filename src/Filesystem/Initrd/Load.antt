-- ===== src/Filesystem/Initrd/Load.antt =====
-- The loop of `initialise_initrd` in kernel/filesystem/initrd.c: what it makes of the file headers.
use mathlib.Core.Path.{subst}
use native.Mathlib.Decide.{ℕ_discrete}
use maken_os.Base.{
  ℕ, zero, suc, ◌+◌, ◌*◌, ◌≤◌, ◌<◌, ◌≡◌, refl, ◌∙◌, ap, arith, ◌⊎◌, some, List, [], ◌∷◌, get_elem?,
  Memory, IsBytes, read_le, read_le_ext,
}
use maken_os.Filesystem.Initrd.{Node, header_length, file_node, add_files}
use maken_os.Filesystem.Initrd.Entry.{
  File, File-after, File-before, IsApart, IsReady, IsReady-same, add_file-File,
}

-- The node that the loop makes for file `k`.
abbrev pub loaded_node : ℕ → Memory → ℕ → Node
loaded_node headers m k = file_node (k + 2) (read_le 8 m (header_length headers k))

module _ (fuel location headers dirents n : ℕ) (len : ℕ → ℕ)
    (enough : (j : ℕ) → j < n → len j < fuel)
    (regions : (dirents + 132 * (n + 2) ≤ headers) ⊎ (headers + 88 * n ≤ dirents)) where
  abbrev pub AreReady : ℕ → Memory → Type 0
  AreReady k m = (j : ℕ) → k ≤ j → j < n → IsReady headers dirents j (len j) m

  -- What the loop from file `k` on makes of a memory.
  pub record Loaded (k : ℕ) (m : Memory) (nodes : List Node) (m' : Memory) : Type 0 where
    pub small : IsBytes m'
    pub files : (j : ℕ) → k ≤ j → j < n → File location headers dirents j (len j) m m'
    pub same : (b : ℕ) → ((j : ℕ) → k ≤ j → j < n → IsApart headers dirents j b) → m' b ≡ m b
    pub nodes_at : (j : ℕ) → k + j < n → get_elem? nodes j ≡ some (loaded_node headers m (k + j))

  AreReady-suc :
      (k : ℕ) (m m1 : Memory)
      → k < n
      → AreReady k m
      → ((b : ℕ) → IsApart headers dirents k b → m1 b ≡ m b)
      → AreReady (k + 1) m1
  AreReady-suc k m m1 within ready same j lo hi =
      IsReady-same headers dirents j (len j) m m1
        (λ b lo' hi'. same b (omega (arith, regions), omega (arith, regions)))
        (λ b lo' hi'. same b (omega (arith, regions), omega (arith, regions)))
        (ready j (omega arith) hi)

  Loaded-suc :
      (k : ℕ) (m m1 m' : Memory) (nodes : List Node)
      → k < n
      → AreReady k m
      → File location headers dirents k (len k) m m1
      → ((b : ℕ) → IsApart headers dirents k b → m1 b ≡ m b)
      → Loaded (k + 1) m1 nodes m'
      → Loaded k m (file_node (k + 2) (read_le 8 m1 (header_length headers k)) ∷ nodes) m'
  Loaded-suc k m m1 m' nodes within ready file same rest = record {
    small = rest.small;
    files = λ j lo hi. elim (ℕ_discrete k j) [
      | yes e ↦ subst (λ (i : ℕ). File location headers dirents i (len i) m m') e first
      | no ne ↦
          File-before location headers dirents j (len j) m m1 m'
            (λ b lo' hi'. same b (omega (arith, regions), omega (arith, regions)))
            (ready j lo hi).short (rest.files j (omega arith) hi)
    ];
    same = λ b out.
        rest.same b (λ j lo hi. out j (omega arith) hi) ∙ same b (out k (omega arith) within);
    nodes_at = node_at;
  }
    where
      first : File location headers dirents k (len k) m m'
      first =
          File-after location headers dirents k (len k) m m1 m'
            (λ b lo hi. rest.same b (λ i p q. (omega (arith, regions), omega (arith, regions))))
            (λ b lo hi. rest.same b (λ i p q. (omega (arith, regions), omega (arith, regions))))
            (ready k (omega arith) within).short file

      length_same :
          (i : ℕ)
          → k < i
          → i < n
          → read_le 8 m1 (header_length headers i) ≡ read_le 8 m (header_length headers i)
      length_same i lo hi =
          read_le_ext 8 m m1 _ (λ b p q. same b (omega (arith, regions), omega (arith, regions)))

      node_at :
          (j : ℕ)
          → k + j < n
          → get_elem? (file_node (k + 2) (read_le 8 m1 (header_length headers k)) ∷ nodes) j
            ≡ some (loaded_node headers m (k + j))
      node_at zero lt =
          let here : k ≡ k + 0 = omega arith in
          ap (λ (t : ℕ). some (file_node (k + 2) t)) file.length
          ∙ ap (λ (t : ℕ). some (loaded_node headers m t)) here
      node_at (suc j) lt =
          let there : k + 1 + j ≡ k + suc j = omega arith in
          rest.nodes_at j (omega arith)
          ∙ ap (λ (t : ℕ). some (file_node (k + 1 + j + 2) t))
              (length_same (k + 1 + j) (omega arith) (omega arith))
          ∙ ap (λ (t : ℕ). some (loaded_node headers m t)) there

  pub add_files-Loaded :
      (left k : ℕ) (m : Memory)
      → k + left ≡ n
      → IsBytes m
      → AreReady k m
      → (nodes : List Node) × (m' : Memory) × (add_files fuel left location headers dirents k m
          ≡ some (nodes, m'))
        × Loaded k m nodes m'
  unfolding add_files
  add_files-Loaded zero k m e small ready = (
    [],
    m,
    refl,
    record {
      small = small;
      files = λ j lo hi. absurd (omega arith);
      same = λ b out. refl;
      nodes_at = λ j lt. absurd (omega arith);
    },
  )
  add_files-Loaded (suc left) k m e small ready =
      let (m1, runs, small1, file, same) =
        add_file-File fuel location headers dirents k (len k) m small
          (ready k (omega arith) (omega arith)) (enough k (omega arith)) in
      let (nodes, m', rest_runs, rest) =
        add_files-Loaded left (k + 1) m1 (omega arith) small1
          (AreReady-suc k m m1 (omega arith) ready same) in
      (
        file_node (k + 2) (read_le 8 m1 (header_length headers k)) ∷ nodes,
        m',
        rw (runs, rest_runs) refl,
        Loaded-suc k m m1 m' nodes (omega arith) ready file same rest,
      )
