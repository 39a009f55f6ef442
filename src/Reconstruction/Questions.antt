-- ===== src/Reconstruction/Questions.antt =====
-- domain/models/reconstruction.py: the columns of a question that its validation reads or writes.
use pages_to_rgb.Prelude.{ℕ, String, Bool, List, any, ◌==◌}

pub data Completeness : Type 0 where
  complete partial missing : Completeness

pub data QuestionFlag : Type 0 where
  number_missing alternatives_incomplete visual_ambiguity : QuestionFlag
  duplicate_number sequence_gap ocr_conflict media_unresolved cross_page : QuestionFlag

pub record Alternatives : Type 0 where
  pub a : String
  pub b : String
  pub c : String
  pub d : String
  pub e : String

pub record Question : Type 0 where
  pub question_number : ℕ
  pub text : String
  pub alternatives : Alternatives
  pub completeness : Completeness
  pub flags : List QuestionFlag

abbrev place : QuestionFlag → ℕ
place number_missing = 0
place alternatives_incomplete = 1
place visual_ambiguity = 2
place duplicate_number = 3
place sequence_gap = 4
place ocr_conflict = 5
place media_unresolved = 6
place cross_page = 7

abbrev pub same_flag : QuestionFlag → QuestionFlag → Bool
same_flag f g = place f == place g

-- `f in q.flags`
abbrev pub has_flag : QuestionFlag → Question → Bool
has_flag f q = any (same_flag f) q.flags
