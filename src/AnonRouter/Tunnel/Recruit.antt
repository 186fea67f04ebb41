-- ===== src/AnonRouter/Tunnel/Recruit.antt =====
-- The answers to a recruitment in tunnel.cpp, as the recruiter reads them.
use scatter_web_project.Common.{
  Bytes, String, ◌≡◌, refl, true, false, Option, none, some, length, take,
}
use scatter_web_project.Int.{ℤ, pos, IsInt64, as_int64-as_uint64}
use scatter_web_project.Hex.{to_hex}
use scatter_web_project.Cbor.{Libcbor, IsDefinite, Loads, pairs_of, add_pairs-take, safe_cbor_uint}
use scatter_web_project.AnonRouter.Tunnel.{
  RecruitResult, response_entries, response_pairs, response_item, build_response, take_fields,
  recruit_result, no_result, parse_recruit_response,
}

-- What an answer says.
abbrev pub answer : Bytes → Option String → ℤ → RecruitResult
answer tok none retry_after = record {
  succeeded = true;
  session_tok_hex = to_hex tok;
  reason = "";
  retry_after = pos 0;
}
answer tok (some reason) retry_after = record {
  succeeded = false;
  session_tok_hex = to_hex tok;
  reason = reason;
  retry_after = retry_after;
}

module _ (lib : Libcbor) where
  fields_read :
      (tok : Bytes) (reason : Option String) (retry_after : ℤ)
      → length tok ≡ 32
      → IsInt64 retry_after
      → take_fields lib
          (pairs_of (take (response_pairs reason) (response_entries tok reason retry_after)))
          no_result
        ≡ answer tok reason retry_after
  unfolding take_fields response_entries safe_cbor_uint
  fields_read tok none retry_after h fits = rw h refl
  fields_read tok (some reason) retry_after h fits =
      rw (h, as_int64-as_uint64 retry_after fits) refl

  -- An acceptance, or a refusal with its reason and time, is read as it was built, with the token
  -- in hexadecimal.
  pub parse-build_response :
      (tok : Bytes) (reason : Option String) (retry_after : ℤ)
      → IsDefinite lib
      → length tok ≡ 32
      → IsInt64 retry_after
      → Loads lib (response_item lib tok reason retry_after)
      → parse_recruit_response lib (build_response lib tok reason retry_after)
        ≡ answer tok reason retry_after
  unfolding parse_recruit_response build_response response_item recruit_result
  parse-build_response tok reason retry_after definite h fits loads =
      rw (loads, recruit_result)
        (rw
          (add_pairs-take lib (response_pairs reason) (response_entries tok reason retry_after)
            definite)
          (fields_read tok reason retry_after h fits))
