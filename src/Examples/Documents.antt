-- ===== src/Examples/Documents.antt =====
-- Chunks and retrieved documents at concrete inputs.
use Prim.Native.String.{count}
use whatsapp_ai_bot.Prelude.{
  ◌+◌, ◌≤◌, String, true, List, [], ◌∷◌, map, some, ◌≡◌, refl, arith, if◌then◌else◌, str_eq, length,
  take, All,
}
use whatsapp_ai_bot.Chunking.{
  Tokens, Codec, windows, chunk_text, decoded, overlap_of, pack, is_nonempty,
}
use whatsapp_ai_bot.Chunking.Windows.{windows_rejoin, join}
use whatsapp_ai_bot.Chunking.Packing.{pack-Covers, Covers}
use whatsapp_ai_bot.Chunking.Bounds.{chunk_text_bounded}
use whatsapp_ai_bot.Retrieval.{Hit, Retriever, retrieve}
use whatsapp_ai_bot.Retrieval.Budget.{retrieve_longest, LongestPrefix}

abbrev seven : Tokens
seven = 1 ∷ 2 ∷ 3 ∷ 4 ∷ 5 ∷ 6 ∷ 7 ∷ []

windows_rejoin_example :
    (ws : List Tokens) × (windows seven 3 2 ≡ some ws)
    × (join (map (take 2) ws) ≡ seven)
    × All (λ w. length w ≤ 3) ws
windows_rejoin_example = windows_rejoin seven 3 2 (omega arith) (omega arith)

abbrev three_units : List Tokens
three_units = (1 ∷ 2 ∷ []) ∷ (3 ∷ 4 ∷ 5 ∷ []) ∷ (6 ∷ []) ∷ []

pack-Covers_example :
    All (λ u. is_nonempty u ≡ true → Covers u (pack 4 1 (0 ∷ []) [] three_units)) three_units
pack-Covers_example = pack-Covers 4 1 (0 ∷ []) [] three_units

-- Each paragraph of two is seven tokens, and the separator is one.
abbrev codec : Codec
codec = record {
  encode = λ s. if str_eq s "\n\n" then 0 ∷ [] else seven;
  decode = λ tokens. "chunk";
  strip = λ s. s;
  normalize = λ s. s;
  paragraphs = λ s. s ∷ s ∷ [];
}

chunk_text_bounded_example :
    (chunks : List Tokens) × (chunk_text codec "page" 5 2 ≡ some (decoded codec chunks))
    × All (λ chunk. length chunk ≤ 5 + overlap_of 5 2 + length (codec.encode "\n\n")) chunks
chunk_text_bounded_example = chunk_text_bounded codec "page" 5 2 (omega arith)

abbrev hit_of : String → Hit
hit_of text = record { content = text; title = "Prices"; page = some 3; score = 1 }

abbrev hits : List Hit
hits = hit_of "first" ∷ hit_of "second" ∷ hit_of "third" ∷ []

abbrev retriever : Retriever
retriever = record {
  search = λ query limit. hits;
  strip = λ s. s;
  length_of = count;
  round = λ n. n;
  print = λ n. "3";
  rag_max_context_chars = 12;
}

retrieve_longest_example : LongestPrefix retriever 12 hits (retrieve retriever "prices" 5)
retrieve_longest_example = retrieve_longest retriever "prices" 5 refl
