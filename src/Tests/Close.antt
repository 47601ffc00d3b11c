-- ===== src/Tests/Close.antt =====
-- A cooperative close of internal/app/channel_close.go at a concrete channel.
use virtual_private_node.Base.{true, false, none, some, ok}
use virtual_private_node.Base.Int.{pos}
use virtual_private_node.Base.Text.{codes}
use virtual_private_node.Close.{ChannelCloseClient, ChannelCloseRequest, close_channel}
use virtual_private_node.Close.Submit.{Outcome, close_channel-Outcome}

abbrev client : ChannelCloseClient
client = record {
  channel_close_state = λ point. ok (record {
    found = true;
    active = true;
    status_flags = "ChanStatusDefault";
    pending_htlcs = pos 0;
    closing = false;
  });
  close_channel = λ req. record {
    submitted = true;
    confirmed = false;
    closing_txid = codes "ff";
    error = none;
  };
}

abbrev request : ChannelCloseRequest
request = record { channel_point = codes "aa:0"; force = false; sat_per_vbyte = 2 }

close_channel-Outcome_example : Outcome client request (close_channel (some client) request)
close_channel-Outcome_example = close_channel-Outcome client request
