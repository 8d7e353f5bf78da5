-- ===== src/Examples/Knowledge.antt =====
-- The knowledge base of the desk with one note that waits for the worker, and what is fetched and uploaded.
use support_flow.Prelude.{
  arith, String, true, false, ℕ, suc, ap, sym, ◌∙◌, ◌≡◌, refl, none, some, List, [], ◌∷◌, map,
  length,
}
use support_flow.Text.{strip, lstrip, rstrip, is_space, Text, codes}
use support_flow.Errors.{ok}
use support_flow.Db.{DocumentSourceType, KnowledgeDocument, KnowledgeChunk}
use support_flow.Enums.{ProcessingStatus}
use support_flow.Document.Page.{Handled}
use support_flow.Document.Extract.{Readers, Pdf}
use support_flow.Session.{World}
use support_flow.AiCalls.{Attempt, run, attempt_from}
use support_flow.Document.Extract.{text_eq}
use support_flow.UrlFetch.{Network, addresses, lookup_failed, answered, crashed, fetch}
use support_flow.UrlFetch.Guard.{IsGuarded, fetch-IsGuarded}
use support_flow.FileValidation.{AllowedType, owns, declared_type, validate, sanitize_filename}
use support_flow.FileValidation.Agreement.{IsAnnounced, validate-IsAnnounced}
use support_flow.FileValidation.Names.{IsSafe, sanitize_filename-IsSafe}
use support_flow.Knowledge.{
  KnowledgeDocumentCreate, load_document, new_document, create_manual, create_from_url,
}
use support_flow.Knowledge.Ingestion.{Sources, claimed, ingester, run_ingestion}
use support_flow.Knowledge.Batches.{OneEach}
use support_flow.Knowledge.Outcomes.{Ingested, run_ingestion-Ingested}
use support_flow.Knowledge.Answer.{KnowledgeAnswer, source_of, cite_from, cite, answer_from, answer}
use support_flow.Knowledge.Grounding.{Grounded, answer-Grounded}
use support_flow.Knowledge.Retrieval.{has_published_chunks, is_searchable, search_chunks, retrieve}
use support_flow.Knowledge.Creation.{Created, IsManual, IsUrl, LacksUrl, create-Created}
use support_flow.Examples.{chief, desk, desk_db}
use support_flow.Examples.Analyses.{haiku}

abbrev policy_note : KnowledgeDocument
policy_note =
    new_document chief "Returns" (codes "Ask us within a week.") DocumentSourceType.manual none 20
      80

abbrev library : World
library = record desk { session = record desk_db { knowledge_documents = policy_note ∷ [] } }

abbrev text_readers : Readers
text_readers = record { read_pdf = λ bytes. Pdf.broken; handled = λ s. Handled.characters s ∷ [] }

-- A network where one host has an address, and every other name is unknown.
abbrev dark : Network
dark = record {
  scheme = λ url. codes "https";
  hostname = λ url. url;
  urljoin = λ url location. location;
  resolve = λ host. elim (text_eq host (codes "desk.example")) [
    | true ↦ addresses (record { is_global = true; is_multicast = false } ∷ [])
    | false ↦ lookup_failed
  ];
  get = λ url. answered 200 (some (codes "text/plain")) (codes "Ask us." ∷ []);
}

-- Nothing is stored.
abbrev nowhere : Sources
nowhere = record { network = dark; read_object = λ key. none; suffix = λ name. ".txt" }

-- A text's vector is its length.
abbrev measure : List Text → ℕ → Attempt (List ℕ)
measure texts attempt = Attempt.answered (map length texts) 8 0

lengths : (texts : List Text) → length (map {A = Text} length texts) ≡ length texts
lengths [] = refl
lengths (s ∷ texts) = ap suc (lengths texts)

values : {A : Type 0} → A → Attempt A → A
values d (Attempt.answered a p k) = a
values d (Attempt.transient p k) = d
values d (Attempt.failed p k) = d

measure-OneEach : OneEach measure
unfolding values
measure-OneEach texts attempt vectors p k h =
    ap length (sym (ap (values (map length texts)) h)) ∙ lengths texts

note_found : load_document 1 80 library.session ≡ some policy_note
unfolding load_document
note_found = refl

run_ingestion-Ingested_example :
    Ingested
      (λ v. load_document 1 80 v.session ≡ some (claimed 30 policy_note))
      80
      (run_ingestion text_readers nowhere measure haiku 1 30 80 library)
run_ingestion-Ingested_example =
    run_ingestion-Ingested text_readers nowhere measure haiku 1 30 measure-OneEach 80 policy_note
      library note_found refl refl

abbrev body : KnowledgeDocumentCreate
body = record { title = "Hours"; content = some (codes "Nine to five."); url = none }

create-Created_example :
    Created chief
      (IsManual body)
      (body.content ≡ none)
      library
      (create_manual chief body 40 library).0
      (create_manual chief body 40 library).1
    × Created chief
        (IsUrl body)
        (LacksUrl body)
        library
        (create_from_url chief body 40 library).0
        (create_from_url chief body 40 library).1
create-Created_example = create-Created chief body 40 library (omega arith, tt)

abbrev passage : ℕ → ℕ → String → KnowledgeChunk
passage id index content = record {
  id = id;
  organization_id = 1;
  document_id = 80;
  chunk_index = index;
  content = codes content;
  embedded = true;
  embedding_model = some "text-embedding-3-small";
  token_count = 5;
}

-- The same note once it is published, in two passages.
abbrev open_library : World
open_library = record desk {
  session = record desk_db {
    knowledge_documents =
        record policy_note {
          status = ProcessingStatus.completed;
          is_published = true;
          chunk_count = 2;
        }
        ∷ [];
    knowledge_chunks = passage 81 0 "Ask us." ∷ passage 82 1 "Within a week." ∷ [];
  };
}

abbrev whole : ℕ → List KnowledgeChunk → List KnowledgeChunk
whole v chunks = chunks

-- A model that cites the second passage, twice, and one that there is not.
abbrev scholar : List KnowledgeChunk → ℕ → Attempt KnowledgeAnswer
scholar chunks attempt =
    Attempt.answered (record { answer = "Within a week."; used_sources = 2 ∷ 7 ∷ 2 ∷ [] }) 8 4

abbrev embedded_question : ℕ → Attempt ℕ
embedded_question attempt = Attempt.answered 0 8 0

answer-Grounded_example :
    Grounded whole haiku
      (ingester 1)
      scholar
      open_library.session
      (retrieve whole haiku (ingester 1) embedded_question open_library).0
      (retrieve whole haiku (ingester 1) embedded_question open_library).1
      (answer whole haiku (ingester 1) scholar embedded_question open_library).0
answer-Grounded_example =
    answer-Grounded whole haiku (ingester 1) scholar (λ P v chunks h. h) embedded_question
      open_library

one_cited :
    (answer whole haiku (ingester 1) scholar embedded_question open_library).0
    ≡ ok (record {
      answer = "Within a week.";
      sources = source_of (passage 82 1 "Within a week.") ∷ [];
    })
unfolding answer retrieve has_published_chunks search_chunks is_searchable run attempt_from
    answer_from cite cite_from
one_cited = refl

fetch-IsGuarded_example : IsGuarded dark 6 (fetch dark (codes "desk.example"))
fetch-IsGuarded_example = fetch-IsGuarded dark (codes "desk.example")

-- A name that does not resolve.
name_unknown : fetch dark (codes "gone.example") ≡ (crashed, [])
unfolding fetch text_eq
name_unknown = refl

abbrev gif : AllowedType
gif = record {
  media_type = "image/gif";
  signatures = codes "GIF87a" ∷ codes "GIF89a" ∷ [];
  extensions = ".gif" ∷ [];
}

accepted : validate ".gif" (some (codes "image/gif")) (codes "GIF89a...") ≡ some gif
unfolding validate strip lstrip rstrip is_space text_eq
accepted = refl

validate-IsAnnounced_example :
    (owns ".gif" gif ≡ true)
    × (declared_type (some (codes "image/gif")) ≡ codes "image/gif")
    × IsAnnounced gif (codes "GIF89a...")
validate-IsAnnounced_example =
    validate-IsAnnounced ".gif" (some (codes "image/gif")) (codes "GIF89a...") gif accepted

sanitize_filename-IsSafe_example : IsSafe (sanitize_filename (λ c. false) (codes "..sh\"ot.png"))
sanitize_filename-IsSafe_example = sanitize_filename-IsSafe (λ c. false) (codes "..sh\"ot.png")
