-- ===== src/Domain/Hashing.antt =====
-- packages/domain/attention_sink/domain/hashing.py: the digests. SHA-256 is the host's.
use attention_sink.Prelude.{ℕ, String, ◌≡◌, refl, List, [], ◌∷◌, map, sorted}
use attention_sink.Prelude.Text.{concat, join, str, length, text_leb}
use attention_sink.Domain.Runtime.{Host}

-- `_join`
unfoldable pub join_fields : List String → String
unfolding concat join str
join_fields fields = join "|" (map (λ field. concat (str (length field) ∷ ":" ∷ field ∷ [])) fields)

module _ ⦃host : Host⦄ where
  unfoldable pub content_hash : String → String
  unfolding concat
  content_hash text = concat ("sha256:" ∷ host.sha256_hexdigest text ∷ [])

  unfoldable pub state_hash : List String → String
  unfolding concat join_fields
  state_hash memory_ids = concat ("sha256:" ∷ host.sha256_hexdigest (join_fields memory_ids) ∷ [])

  unfoldable pub selection_digest : String → String → ℕ → ℕ → List String → String
  unfolding join_fields str
  selection_digest run_random_seed arm_id cycle decision_index candidate_memory_ids =
      host.sha256_hexdigest (
        join_fields (
          run_random_seed
          ∷ arm_id
          ∷ str cycle
          ∷ str decision_index
          ∷ sorted text_leb candidate_memory_ids))

join_fields-pair : join_fields ("ab" ∷ "c" ∷ []) ≡ "2:ab|1:c"
unfolding join_fields
join_fields-pair = refl
