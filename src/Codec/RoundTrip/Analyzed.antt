-- ===== src/Codec/RoundTrip/Analyzed.antt =====
-- What _analyze_model of src/npb/_codec.py finds for a tree.
use mathlib.Core.Path.{subst}
use npb.Prelude.{ℕ, ◌+◌, ◌≡◌, refl, sym, ap, ◌∙◌, List, [], length}
use npb.Errors.{ok}
use npb.Exec.{lift, bind-eq-ok}
use npb.Value.{Value}
use npb.Externals.{Externals, Documented}
use npb.Format.{align_up, frame_size, header_size}
use npb.Schema.{schema_identity}
use npb.Codec.Manifest.{json_fallback}
use npb.Codec.Encode.{Analysis, Model, model, analyze_tree, analyze_model, check_threshold}
use npb.Codec.Encode.Image.{IsPlaced}
use npb.Codec.Encode.Slices.{AllHold}
use npb.Codec.Restore.{restore_tree}
use npb.Codec.RoundTrip.Trees.{IsCarried, seen}
use npb.Codec.RoundTrip.Setting.{Setting}
use npb.Codec.RoundTrip.Walk.{Restores}
use npb.Codec.RoundTrip.Induction.{Leaves, tree-Walked}

-- The arrays lie in the data section, and the metadata restores to the tree on every container that
-- holds them, where the reader sees the store.
pub record Analyzed {S T : Type 0} (setting : Setting S T) (ext : Externals) (s : S) (tree : Value)
    (an : Analysis) : Type 0 where
  pub placed : IsPlaced an.arrays 0 an.data_bytes
  pub data_start_eq : an.data_start ≡ align_up (header_size + length an.metadata_json) frame_size
  pub manifest : Value
  pub json_eq : ext.from_json an.metadata_json ≡ ok manifest
  pub restores :
      Restores setting s
        (λ b base stop. restore_tree ext b base stop setting.reader manifest)
        (λ w. seen (setting.view w) tree)
        an.arrays

module _ {S T : Type 0} (setting : Setting S T) (ext : Externals)
    (doc : Documented ext (json_fallback ext)) (leaves : Leaves setting ext) where
  analyze_tree-Analyzed :
      (schema_id : List ℕ) (version : ℕ) (tree : Value) (s : S)
      → IsCarried ext setting.Ref tree
      → (an : Analysis) × ((s' : S) × ((analyze_tree ext setting.blob_store
                setting.externalize_min_bytes
                (schema_id, version)
                tree
                s
              ≡ (ok an, s'))
            × ((◌≡◌ {A = List ℕ × ℕ} (schema_id, version) (an.schema_id, an.schema_version))
                × (Analyzed setting ext s' tree an × setting.Extends s s'))))
  unfolding analyze_tree
  analyze_tree-Analyzed schema_id version tree s h =
      let f =
        tree-Walked setting ext leaves tree (record { arrays = []; cursor = 0; blobs = s }) h in
      let (bs, written, read) = doc.json_round_trip f.manifest f.json in
      (
        record {
          schema_id = schema_id;
          schema_version = version;
          data_bytes = f.after.cursor;
          data_start = align_up (header_size + length bs) frame_size;
          arrays = f.after.arrays;
          metadata_json = bs;
        },
        (
          f.after.blobs,
          (
            rw (f.walked, written) refl,
            (
              refl,
              (
                record {
                  placed =
                      subst (λ t. IsPlaced t 0 f.after.cursor) (sym f.adds.arrays_eq) f.adds.placed;
                  data_start_eq = refl;
                  manifest = f.manifest;
                  json_eq = read;
                  restores = λ b base stop room hold t sees.
                      f.restores b base stop room
                        (subst (λ arrays. AllHold b.content base stop arrays) f.adds.arrays_eq hold)
                        t sees;
                },
                f.adds.extends,
              ),
            ),
          ),
        ),
      )

  analyze_tree-ok :
      (identity : List ℕ × ℕ) (tree : Value) (s s' : S) (an : Analysis)
      → IsCarried ext setting.Ref tree
      → analyze_tree ext setting.blob_store setting.externalize_min_bytes identity tree s
        ≡ (ok an, s')
      → (identity ≡ (an.schema_id, an.schema_version))
        × (Analyzed setting ext s' tree an × setting.Extends s s')
  analyze_tree-ok (schema_id, version) tree s s' an h e =
      let (found, (end, (returned, (identity, (facts, extends))))) =
        analyze_tree-Analyzed schema_id version tree s h in
      let same : found ≡ an = cc in
      let same_end : end ≡ s' = ap (λ p. p.1) (sym returned ∙ e) in
      (
        rw (identity, same) refl,
        (
          subst (λ x. Analyzed setting ext x tree an) same_end
              (subst (λ x. Analyzed setting ext end tree x) same facts),
          subst (λ x. setting.Extends s x) same_end extends,
        ),
      )

  -- An analysis that returned carries the class's identity, has these facts, and has extended the store.
  pub analyze_model-Analyzed :
      (m : Model) (s s' : S) (an : Analysis)
      → IsCarried ext setting.Ref m.tree
      → analyze_model ext setting.blob_store setting.externalize_min_bytes (model m) s ≡ (ok an, s')
      → (schema_identity m.model_type ≡ ok (an.schema_id, an.schema_version))
        × (Analyzed setting ext s' m.tree an × setting.Extends s s')
  unfolding analyze_model
  analyze_model-Analyzed m s s' an h e =
      let (identity, (u, (named, h1))) = bind-eq-ok (lift (schema_identity m.model_type)) _ s e in
      let (done, (v, (checked, h2))) =
        bind-eq-ok (lift (check_threshold ext setting.blob_store setting.externalize_min_bytes)) _ u
          h1 in
      let still : v ≡ s = ap (λ p. p.1) (sym checked) ∙ ap (λ p. p.1) (sym named) in
      let (same, facts) = analyze_tree-ok identity m.tree s s' an h (
        subst
          (λ x.
            analyze_tree ext setting.blob_store setting.externalize_min_bytes identity m.tree x
            ≡ (ok an, s'))
          still h2) in
      (ap (λ p. p.0) named ∙ ap ok same, facts)

  -- The analysis of such a tree returns, with an identity and a threshold that are accepted.
  pub analyze_model-returns :
      (m : Model) (s : S) (identity : List ℕ × ℕ)
      → IsCarried ext setting.Ref m.tree
      → schema_identity m.model_type ≡ ok identity
      → check_threshold ext setting.blob_store setting.externalize_min_bytes ≡ ok tt
      → (an : Analysis) × ((s' : S) × (analyze_model ext setting.blob_store
              setting.externalize_min_bytes
              (model m)
              s
            ≡ (ok an, s')))
  unfolding analyze_model
  analyze_model-returns m s (schema_id, version) h named checked =
      let (an, (s', (returned, _))) = analyze_tree-Analyzed schema_id version m.tree s h in
      (an, (s', rw (named, checked) returned))
