-- ===== src/Models.antt =====
-- app/models/openai.py, app/rag/types.py and app/core/errors.py: the data of requests and responses,
-- after pydantic has checked them. A temperature, the score of a chunk and a coordinate of a
-- vector, all floats, are in a small unit; token counts are not negative.
use sovereign_rag_gateway.Prelude.{ℕ, String, Bool, Option, List}
use sovereign_rag_gateway.Prelude.Dict.{Dict}
use sovereign_rag_gateway.Prelude.Int.{ℤ}

-- `ChatMessage`
pub record Message : Type 0 where
  pub role : String
  pub content : String

pub record RagOptions : Type 0 where
  pub enabled : Bool
  pub connector : String
  pub top_k : ℤ
  pub filters : Option (Dict String)

-- `ChatCompletionRequest`
pub record ChatRequest : Type 0 where
  pub model : String
  pub messages : List Message
  pub temperature : Option ℕ
  pub max_tokens : Option ℤ
  pub stream : Bool
  pub rag : Option RagOptions

pub record Usage : Type 0 where
  pub prompt_tokens : ℕ
  pub completion_tokens : ℕ
  pub total_tokens : ℕ

pub record Citation : Type 0 where
  pub source_id : String
  pub connector : String
  pub uri : String
  pub chunk_id : String
  pub score : ℤ

-- `Choice`, with the fields of its message.
pub record Choice : Type 0 where
  pub index : ℤ
  pub content : String
  pub citations : Option (List Citation)

-- `ChatCompletionResponse`
pub record ChatResponse : Type 0 where
  pub id : String
  pub created : ℤ
  pub model : String
  pub choices : List Choice
  pub usage : Usage

pub record DocumentChunk : Type 0 where
  pub source_id : String
  pub connector : String
  pub uri : String
  pub chunk_id : String
  pub text : String
  pub score : ℤ
  pub metadata : Dict String

-- `EmbeddingsRequest.input`
pub data EmbeddingsInput : Type 0 where
  one_text : String → EmbeddingsInput
  texts : List String → EmbeddingsInput

pub record EmbeddingsRequest : Type 0 where
  pub model : String
  pub input : EmbeddingsInput

pub record EmbeddingItem : Type 0 where
  pub index : ℤ
  pub embedding : List ℤ

pub record EmbeddingsUsage : Type 0 where
  pub prompt_tokens : ℕ
  pub total_tokens : ℕ

pub record EmbeddingsResponse : Type 0 where
  pub items : List EmbeddingItem
  pub model : String
  pub usage : EmbeddingsUsage

-- A choice of a streamed chunk: the content of its delta, whether this has citations, and the finish
-- reason.
pub record Delta : Type 0 where
  pub content : Option String
  pub has_citations : Bool
  pub finish_reason : Option String

-- A chunk of a streamed answer, by the parts that the gateway reads.
pub record Chunk : Type 0 where
  pub id : Option String
  pub created : Option ℤ
  pub choices : List Delta
  pub prompt_tokens : Option ℕ
  pub completion_tokens : Option ℕ

pub record AppError : Type 0 where
  pub status_code : ℕ
  pub code : String
  pub error_type : String
  pub message : String
