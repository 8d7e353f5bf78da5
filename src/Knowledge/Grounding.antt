-- ===== src/Knowledge/Grounding.antt =====
-- What an answer of backend/app/services/knowledge_service.py rests on.
use support_flow.Prelude.{
  ℕ, suc, ◌+◌, ◌≤◌, ◌<◌, ◌≡◌, ◌⊎◌, refl, true, false, inl, inr, List, [], ◌∷◌, length, IsIn,
  any_of-Exists, Bool-cases, arith,
}
use support_flow.Enums.{AiOperation}
use support_flow.Errors.{Result, ok, raised}
use support_flow.Db.{KnowledgeChunk, Db}
use support_flow.Session.{World, continue, pure}
use support_flow.AiCalls.{AiSettings, Payer, Attempt, AiResponse, run, generation}
use support_flow.Knowledge.Retrieval.{retrieve}
use support_flow.Knowledge.Requests.{AllSearchable, IsSearch, retrieve-Searchable}
use support_flow.Knowledge.Answer.{
  KnowledgeAnswer, KnowledgeSource, KnowledgeAnswerRead, no_answer, source_of, is_cited, cite_from,
  cite, answer_from, answer,
}

-- The sources are those of the passages whose numbers are used, in the order of the passages. The first
-- passage of the list has the number after `n`.
pub data Cites (used_sources : List ℕ)
    : ℕ → List KnowledgeChunk → List KnowledgeSource → Type 0 where
  none_left : {n : ℕ} → Cites used_sources n [] []
  cited :
      {n : ℕ} (c : KnowledgeChunk) {cs : List KnowledgeChunk} {sources : List KnowledgeSource}
      → IsIn (suc n) used_sources
      → Cites used_sources (suc n) cs sources
      → Cites used_sources n (c ∷ cs) (source_of c ∷ sources)
  uncited :
      {n : ℕ} (c : KnowledgeChunk) {cs : List KnowledgeChunk} {sources : List KnowledgeSource}
      → ¬ IsIn (suc n) used_sources
      → Cites used_sources (suc n) cs sources
      → Cites used_sources n (c ∷ cs) sources

is_cited-IsIn :
    (used_sources : List ℕ) (count position : ℕ)
    → is_cited used_sources count position ≡ true
    → IsIn (suc position) used_sources
is_cited-IsIn used_sources count position h =
    any_of-Exists (λ number. number ≡ suc position) _ used_sources (λ number e. ground (arith, e)) h

not_cited :
    (used_sources : List ℕ) (count position : ℕ)
    → position < count
    → is_cited used_sources count position ≡ false
    → ¬ IsIn (suc position) used_sources
not_cited [] count position few h e = e
not_cited (number ∷ used_sources) count position few h (inl e) = absurd (ground (arith, h, e, few))
not_cited (number ∷ used_sources) count position few h (inr e) =
    not_cited used_sources count position few (ground (arith, h)) e

cite_from-Cites :
    (used_sources : List ℕ) (count position : ℕ) (matches : List KnowledgeChunk)
    → position + length matches ≤ count
    → Cites used_sources position matches (cite_from used_sources count position matches)
unfolding cite_from
cite_from-Cites used_sources count position [] few = Cites.none_left
cite_from-Cites used_sources count position (c ∷ matches) few =
    let rest = cite_from-Cites used_sources count (suc position) matches (omega (arith, few)) in
    elim (Bool-cases (is_cited used_sources count position)) [
      | inl e ↦ rw e (Cites.cited c (is_cited-IsIn used_sources count position e) rest)
      | inr e ↦
          rw e (Cites.uncited c (not_cited used_sources count position (omega (arith, few)) e) rest)
    ]

module _ {V : Type 0} (nearest : V → List KnowledgeChunk → List KnowledgeChunk)
    (settings : AiSettings) (payer : Payer)
    (answer_question : List KnowledgeChunk → ℕ → Attempt KnowledgeAnswer) where
  -- The call of the model for the passages.
  abbrev pub asked : List KnowledgeChunk → World → Result (AiResponse KnowledgeAnswer)
  asked matches w =
      (run settings (generation settings payer AiOperation.knowledge_answer)
        (answer_question matches) w).0

  -- Of what retrieval returned, in the world that it left: an error is the retrieval's or the model's; where
  -- there are no passages the answer is the fixed one, without sources; otherwise it is the model's, and its
  -- sources are the passages that the model's numbers name.
  abbrev pub Grounded :
      Db → Result (List KnowledgeChunk) → World → Result KnowledgeAnswerRead → Type 0
  Grounded db (raised e) w r = r ≡ raised e
  Grounded db (ok []) w r = r ≡ ok (record { answer = no_answer; sources = [] })
  Grounded db (ok (c ∷ cs)) w r =
      AllSearchable payer.organization_id db (ok (c ∷ cs))
      × (((e : _) × ((asked (c ∷ cs) w ≡ raised e) × (r ≡ raised e)))
          ⊎ ((response : AiResponse KnowledgeAnswer) × ((a : KnowledgeAnswerRead) × ((asked (c ∷ cs)
                      w
                    ≡ ok response)
                  × (r ≡ ok a)
                  × (a.answer ≡ response.value.answer)
                  × Cites response.value.used_sources 0 (c ∷ cs) a.sources))))

  asked-Grounded :
      (db : Db) (c : KnowledgeChunk) (cs : List KnowledgeChunk) (w v : World)
      (r : Result (AiResponse KnowledgeAnswer))
      → asked (c ∷ cs) w ≡ r
      → AllSearchable payer.organization_id db (ok (c ∷ cs))
      → Grounded db
          (ok (c ∷ cs))
          w
          (continue r
            (λ answered. pure (record {
              answer = answered.value.answer;
              sources = cite answered.value.used_sources (c ∷ cs);
            }))
            v).0
  unfolding cite
  asked-Grounded db c cs w v (raised e) same h = (h, inl (e, (same, refl)))
  asked-Grounded db c cs w v (ok response) same h = (
    h,
    inr (
      response,
      (
        _,
        (
          same,
          refl,
          refl,
          cite_from-Cites response.value.used_sources (length (c ∷ cs)) 0 (c ∷ cs) (omega arith),
        ),
      ),
    ),
  )

  answer_from-Grounded :
      (db : Db) (r : Result (List KnowledgeChunk)) (w : World)
      → AllSearchable payer.organization_id db r
      → Grounded db r w (continue r (answer_from nearest settings payer answer_question) w).0
  unfolding answer_from
  answer_from-Grounded db (raised e) w h = refl
  answer_from-Grounded db (ok []) w h = refl
  answer_from-Grounded db (ok (c ∷ cs)) w h = asked-Grounded db c cs w _ (asked (c ∷ cs) w) refl h

  -- Where the search returns rows of those that it is given, an answer rests on what retrieval returned. If
  -- that is an error or no passages, the answer is that error or the fixed text without sources. Otherwise
  -- each passage is a row of the table, of the caller's organization and of a document of it that is published
  -- and completed, and the answer is the model's, with exactly those passages as sources, in their order and
  -- once each, whose numbers from one on the model wrote; or the error of the model's call.
  pub answer-Grounded :
      IsSearch nearest
      → (embed : ℕ → Attempt V) (w : World)
      → Grounded w.session
          (retrieve nearest settings payer embed w).0
          (retrieve nearest settings payer embed w).1
          (answer nearest settings payer answer_question embed w).0
  unfolding answer
  answer-Grounded search embed w =
      answer_from-Grounded w.session (retrieve nearest settings payer embed w).0 _
        (retrieve-Searchable nearest search settings payer embed w)
