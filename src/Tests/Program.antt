-- ===== src/Tests/Program.antt =====
-- Opens every definition of the program, for the runs.
use proxy_cache_server.Text.{
  bytes_eq, is_empty, contains_byte, starts_with, find_at, find, includes, first_not_of,
  last_not_of, substr, last_byte, drop_last, split_at, read_line, getline,
}
use proxy_cache_server.Text.Number.{
  is_space, skip_space, read_sign, digit_value, skip_prefix, read_digits, read_number, stoul, stoi,
  digits_of, to_string,
}
use proxy_cache_server.Headers.{
  lookup, insert, erase, get_header, is_alnum, is_token_char, all_token, valid_field_name,
  trim_field_value, member, can_duplicate_field_name, combine, add_field,
}
use proxy_cache_server.Message.{
  decode_value, decode_line, at_end, store_line, next_line, scan_fields, end_of_header,
}
use proxy_cache_server.Message.Body.{
  read_length, crlf_line, chunk_size_str, take_chunk, read_chunks, trailer_field, read_trailer,
  decoded_headers, read_chunked, drop_length, read_body,
}
use proxy_cache_server.HttpRequest.{
  earliest, method_start, known_method, check_line, request_line, settle, after_header, read_header,
  parse_from, parse_request, field_lines, serialize,
}
use proxy_cache_server.Logger.{
  open_logger, log, log_error, log_request, log_cache_status, log_forward_request,
  log_received_response, log_response, log_warning, log_note, log_tunnel_closed,
}
use proxy_cache_server.CacheManager.{
  map_find, map_set, map_erase, deref, remove_node, is_expired, requires_validation, control_time,
  expires_time, get_expiry_time, is_in_cache, fetch_node, get_cached_response, pop_back,
  evict_if_needed, cache_key, push_front, refusal, expires_text, announce, store_cacheable,
  store_response,
}
use proxy_cache_server.CacheManager.Calls.{run_calls}
use proxy_cache_server.Sending.{int_remaining, send_loop, note_failure, reliable_send}
use proxy_cache_server.Forwarding.{
  connects, give_up, stop, accept_response, receive_response, after_send, forward_request,
}
use proxy_cache_server.Tunnel.{
  taken_part, pass, relay, host_name, has_returned, refuse, send_once, open_tunnel, handle_connect,
}
use proxy_cache_server.RequestHandler.{
  is_zero, int_to_string, error_response, send_to_client, forward, store_answer, after_answer,
  answer, with_response, tunnel, dispatch, serve_copy, serve_unmodified, is_conditional,
  add_validators, revalidate, serve_cached, look_up, refuse_request, handle_request,
}
use proxy_cache_server.ClientHandler.{hand_over, drain, handle_client_requests}
use proxy_cache_server.ProxyServer.{
  find_handle, update, erase_handle, accept_client, assign_thread, finish_client, take_finished,
  erase_thread, act, run,
}
use proxy_cache_server.ProxyServer.Shutdown.{
  stop_flag, permits, notified, do_action, sleep, leave, fail_thread, join_left, any_joinable,
  drop_members, destruct, step, live,
}
use proxy_cache_server.ProxyServer.Construction.{
  construct, start_reaper, begin, report, join_reaper, destroy, unwind, serve, main,
}
use proxy_cache_server.ProxyServer.Construction.Laws.{is_serving, is_abort}
use proxy_cache_server.ProxyServer.Shutdown.Progress.{has_notified}
use proxy_cache_server.LineTest.{judge_parts, judge, judge_line, request_line_parsing_test}
use proxy_cache_server.HttpResponse

unfoldable pub program : Unit {0}
unfolding bytes_eq is_empty contains_byte starts_with find_at find includes first_not_of last_not_of
    substr last_byte drop_last split_at read_line getline is_space skip_space read_sign digit_value
    skip_prefix read_digits read_number stoul stoi digits_of to_string lookup insert erase
    get_header is_alnum is_token_char all_token valid_field_name trim_field_value member
    can_duplicate_field_name combine add_field decode_value decode_line at_end store_line next_line
    scan_fields end_of_header read_length crlf_line chunk_size_str take_chunk read_chunks
    trailer_field read_trailer decoded_headers read_chunked drop_length read_body earliest
    method_start known_method check_line request_line settle after_header read_header parse_from
    parse_request field_lines serialize open_logger log log_error log_request log_cache_status
    log_forward_request log_received_response log_response log_warning log_note log_tunnel_closed
    map_find map_set map_erase deref remove_node is_expired requires_validation control_time
    expires_time get_expiry_time is_in_cache fetch_node get_cached_response pop_back evict_if_needed
    cache_key push_front refusal expires_text announce store_cacheable store_response run_calls
    int_remaining send_loop note_failure reliable_send connects give_up stop accept_response
    receive_response after_send forward_request taken_part pass relay host_name has_returned refuse
    send_once open_tunnel handle_connect is_zero int_to_string error_response send_to_client forward
    store_answer after_answer answer with_response tunnel dispatch serve_copy serve_unmodified
    is_conditional add_validators revalidate serve_cached look_up refuse_request handle_request
    hand_over drain handle_client_requests find_handle update erase_handle accept_client
    assign_thread finish_client take_finished erase_thread act run stop_flag permits notified
    do_action sleep leave fail_thread join_left any_joinable drop_members destruct step live
    construct start_reaper begin report join_reaper destroy unwind serve main is_serving is_abort
    has_notified judge_parts judge judge_line request_line_parsing_test HttpResponse.split_word
    HttpResponse.read_word HttpResponse.skip_blanks HttpResponse.trim_cr
    HttpResponse.read_status_line HttpResponse.max_age HttpResponse.control_expiry
    HttpResponse.expires_expiry HttpResponse.settle HttpResponse.read_message
    HttpResponse.parse_from HttpResponse.parse_response HttpResponse.control_allows
    HttpResponse.is_cacheable HttpResponse.serialize
program = tt
