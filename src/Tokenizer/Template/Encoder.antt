-- ===== src/Tokenizer/Template/Encoder.antt =====
-- The engine's encoding of a text comes whole.
