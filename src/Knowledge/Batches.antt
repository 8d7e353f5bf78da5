-- ===== src/Knowledge/Batches.antt =====
-- `_embed` of backend/app/services/knowledge_service.py: as many vectors as passages.
use support_flow.Prelude.{
  length-append, ℕ, zero, suc, ◌+◌, ◌*◌, ◌/◌, ◌≤◌, ◌≡◌, refl, ap, ◌∙◌, subst, List, [], ◌∷◌, ◌++◌,
  length, take, map, arith,
}
use support_flow.Text.{Text, drop}
use support_flow.Document.{TextChunk}
use support_flow.Errors.{Result, ok, raised}
use support_flow.Session.{World, continue, ◌>>=◌, pure}
use support_flow.Session.Rules.{Preserves, continue-rule}
use support_flow.AiCalls.{AiSettings, Payer, Attempt, AiResponse, run, embedding}
use support_flow.Db.{AiUsage}
use support_flow.AiCalls.Ledger.{with_usage, Answered, run-Answered, run-Preserves}
use support_flow.Knowledge.Ingestion.{embed_batches, embed_passages, embedding_batch_size}

length-map : {A B : Type 0} (f : A → B) (xs : List A) → length (map f xs) ≡ length xs
length-map f [] = refl
length-map f (x ∷ xs) = ap suc (length-map f xs)

length-take-drop :
    {A : Type 0} (n : ℕ) (xs : List A) → length (take n xs) + length (drop n xs) ≡ length xs
unfolding drop
length-take-drop zero xs = omega arith
length-take-drop (suc n) [] = omega arith
length-take-drop (suc n) (x ∷ xs) = omega (arith, length-take-drop n xs)

length-drop_le : {A : Type 0} (n m : ℕ) (xs : List A) → length xs ≤ n + m → length (drop n xs) ≤ m
unfolding drop
length-drop_le zero m xs h = omega (arith, h)
length-drop_le (suc n) m [] h = omega arith
length-drop_le (suc n) m (x ∷ xs) h = length-drop_le n m xs (omega (arith, h))

-- The provider gives one vector for each text that it is asked for.
abbrev pub OneEach : {V : Type 0} → (List Text → ℕ → Attempt (List V)) → Type 0
OneEach {V} embed =
    (texts : List Text) (attempt : ℕ) (vectors : List V) (p k : ℕ)
    → embed texts attempt ≡ Attempt.answered vectors p k
    → length vectors ≡ length texts

abbrev pub Sized : {V : Type 0} → ℕ → Result (List V) → Type 0
Sized n (ok vectors) = length vectors ≡ n
Sized n (raised e) = Unit

module _ {V : Type 0} (embed : List Text → ℕ → Attempt (List V)) (one : OneEach embed)
    (settings : AiSettings) (payer : Payer) where
  later-Sized :
      (n m : ℕ) (vectors : List V) (r : Result (List V)) (w : World)
      → length vectors ≡ n
      → Sized m r
      → Sized (n + m) (continue r (λ more. pure (vectors ++ more)) w).0
  later-Sized n m vectors (ok more) w h k = length-append vectors more ∙ omega (arith, h, k)
  later-Sized n m vectors (raised e) w h k = tt

  batch-Sized :
      (left : ℕ)
      → ((passages : List TextChunk) (w : World)
          → length passages ≤ 64 * left
          → Sized (length passages) (embed_batches embed settings payer left passages w).0)
      → (passages : List TextChunk) (r : Result (AiResponse (List V))) (w : World)
      → length passages ≤ 64 * suc left
      → Answered (embed (map (λ (p : TextChunk). p.content) (take embedding_batch_size passages))) r
      → Sized
          (length passages)
          (continue r
            (λ embedded.
              embed_batches embed settings payer left (drop embedding_batch_size passages)
              >>= λ vectors. pure (embedded.value ++ vectors))
            w).0
  batch-Sized left ih passages (raised e) w h a = tt
  batch-Sized left ih passages (ok b) w h (attempt, e) =
      let rest = drop embedding_batch_size passages in
      let vectors : length b.value ≡ length (take embedding_batch_size passages) =
        one _ attempt b.value b.prompt_tokens b.completion_tokens e
        ∙ length-map _ (take embedding_batch_size passages) in
      subst
        (λ n.
          Sized n
            (continue (embed_batches embed settings payer left rest w).0
              (λ more. pure (b.value ++ more))
              (embed_batches embed settings payer left rest w).1).0)
        (length-take-drop embedding_batch_size passages)
        (later-Sized _ (length rest) b.value _ _ vectors
          (ih rest w (length-drop_le 64 (64 * left) passages (omega (arith, h)))))

  embed_batches-Sized :
      (left : ℕ) (passages : List TextChunk) (w : World)
      → length passages ≤ 64 * left
      → Sized (length passages) (embed_batches embed settings payer left passages w).0
  unfolding embed_batches
  embed_batches-Sized zero [] w h = refl
  embed_batches-Sized zero (p ∷ ps) w h = absurd (omega (arith, h))
  embed_batches-Sized (suc left) passages w h =
      batch-Sized left (embed_batches-Sized left) passages _ _ h (
        run-Answered settings (embedding settings payer)
          (embed (map (λ (p : TextChunk). p.content) (take embedding_batch_size passages))) w)

  pub embed_passages-Sized :
      (passages : List TextChunk) (w : World)
      → Sized (length passages) (embed_passages embed settings payer passages w).0
  unfolding embed_passages
  embed_passages-Sized passages w =
      embed_batches-Sized ((length passages + 63) / 64) passages w (omega arith)

embed_batches-Preserves :
    {V : Type 0} (embed : List Text → ℕ → Attempt (List V)) (settings : AiSettings) (payer : Payer)
    (P : World → Type 0)
    → ((rows : List AiUsage) (w : World) → P w → P (with_usage rows w))
    → (left : ℕ) (passages : List TextChunk)
    → Preserves P (embed_batches embed settings payer left passages)
unfolding embed_batches
embed_batches-Preserves embed settings payer P keep zero passages w h = h
embed_batches-Preserves embed settings payer P keep (suc left) passages w h =
    let first = embed (map (λ (p : TextChunk). p.content) (take embedding_batch_size passages)) in
    let rest = drop embedding_batch_size passages in
    continue-rule P (run settings (embedding settings payer) first w).0 _ _
      (run-Preserves P settings (embedding settings payer) first keep w h)
      λ b w1 k.
        continue-rule P (embed_batches embed settings payer left rest w1).0 _ _
          (embed_batches-Preserves embed settings payer P keep left rest w1 k) λ vs w2 k2. k2

-- The calls for the vectors change nothing but the ledger.
pub embed_passages-Preserves :
    {V : Type 0} (embed : List Text → ℕ → Attempt (List V)) (settings : AiSettings) (payer : Payer)
    (P : World → Type 0)
    → ((rows : List AiUsage) (w : World) → P w → P (with_usage rows w))
    → (passages : List TextChunk) → Preserves P (embed_passages embed settings payer passages)
unfolding embed_passages
embed_passages-Preserves embed settings payer P keep passages =
    embed_batches-Preserves embed settings payer P keep ((length passages + 63) / 64) passages
