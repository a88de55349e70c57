-- ===== src/Rpc.antt =====
-- rpc/api: the handlers of the JSON-RPC requests, over the node's backend.
pub mod Resp
pub mod Eth
pub mod Sbch
pub mod HeightRange
pub mod Blocks
