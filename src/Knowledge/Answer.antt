-- ===== src/Knowledge/Answer.antt =====
-- `answer` and `_cite` of backend/app/services/knowledge_service.py. A source is what the passage's row says of
-- it; titles and similarities, which the search joins, are left out, and a number below one stands as zero.
use support_flow.Prelude.{
  ℕ, suc, ◌-◌, String, Bool, List, [], ◌∷◌, ◌&&◌, ◌==◌, leb, length, any_of, if◌then◌else◌,
}
use support_flow.Text.{Text}
use support_flow.Enums.{AiOperation}
use support_flow.Db.{KnowledgeChunk}
use support_flow.Session.{App, ◌>>=◌, pure}
use support_flow.AiCalls.{AiSettings, Payer, Attempt, run, generation}
use support_flow.Knowledge.Retrieval.{retrieve}

-- What the model wrote: the answer, and the numbers of the passages it used.
pub record KnowledgeAnswer : Type 0 where
  pub answer : String
  pub used_sources : List ℕ

pub record KnowledgeSource : Type 0 where
  pub document_id : ℕ
  pub chunk_index : ℕ
  pub excerpt : Text

pub record KnowledgeAnswerRead : Type 0 where
  pub answer : String
  pub sources : List KnowledgeSource

abbrev pub no_answer : String
no_answer = "The knowledge base does not contain sufficient information to answer that question."

abbrev pub source_of : KnowledgeChunk → KnowledgeSource
source_of c = record {
  document_id = c.document_id;
  chunk_index = c.chunk_index;
  excerpt = c.content;
}

-- `position in cited`
abbrev pub is_cited : List ℕ → ℕ → ℕ → Bool
is_cited used_sources matches position =
    any_of (λ number. leb 1 number && leb number matches && (number - 1 == position)) used_sources

-- The comprehension of `_cite` from one position on.
unfoldable pub cite_from : List ℕ → ℕ → ℕ → List KnowledgeChunk → List KnowledgeSource
cite_from used_sources count position [] = []
cite_from used_sources count position (match ∷ matches) =
    let rest = cite_from used_sources count (suc position) matches in
    if is_cited used_sources count position then source_of match ∷ rest else rest

-- `_cite`
unfoldable pub cite : List ℕ → List KnowledgeChunk → List KnowledgeSource
unfolding cite_from
cite used_sources matches = cite_from used_sources (length matches) 0 matches

module _ {V : Type 0} (nearest : V → List KnowledgeChunk → List KnowledgeChunk)
    (settings : AiSettings) (payer : Payer)
    (answer_question : List KnowledgeChunk → ℕ → Attempt KnowledgeAnswer) where
  -- `answer` with what retrieval brought.
  unfoldable pub answer_from : List KnowledgeChunk → App KnowledgeAnswerRead
  unfolding run cite
  answer_from [] = pure (record { answer = no_answer; sources = [] })
  answer_from (match ∷ matches) = do
    answered ←
        run settings (generation settings payer AiOperation.knowledge_answer)
          (answer_question (match ∷ matches))
    pure (record {
      answer = answered.value.answer;
      sources = cite answered.value.used_sources (match ∷ matches);
    })

  unfoldable pub answer : (ℕ → Attempt V) → App KnowledgeAnswerRead
  unfolding retrieve answer_from
  answer embed = do matches ← retrieve nearest settings payer embed; answer_from matches
